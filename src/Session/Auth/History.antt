-- ===== src/Session/Auth/History.antt =====
-- Any sequence of what a tab does through auth.ts and api.ts, and the page reload after it.
use netfleet.Common.{
  ℕ, ◌≡◌, Option, none, some, List, [], ◌∷◌, true, Text, codes, arith, ltb, if◌then◌else◌,
}
use netfleet.Json.{Json, get_text}
use netfleet.Session.Storage.{ms, null, Shadow, construct}
use netfleet.Session.Storage.Reload.{
  IsInSync, clear-IsInSync, construct-IsInSync, reload-IsInSync, set_given-IsInSync,
}
use netfleet.Session.Client.{Env, Tab, Request, Result, ok, err, await_call}
use netfleet.Session.Client.Sync.{Syncs, json_call-Syncs, await_call-Syncs}
use netfleet.Session.Auth.{
  ProfileUpdate, ChangePasswordPayload, OtpMethod, SetupPayload, keep_token, keep, keep_final,
  update_profile, change_password, enroll_totp_begin, enroll_totp_confirm, disable_totp,
  send_otp_code, login, verify_totp, verify_login_otp, logout, fetch_me, fetch_setup_status,
  fetch_oidc_providers, perform_setup,
}

-- A call of auth.ts, or of any other endpoint through the client.
pub data Action : Type 0 where
  profile : ProfileUpdate → Action
  password : ChangePasswordPayload → Action
  begin_totp : Action
  confirm_totp disable : Text → Action
  send_code : Text → OtpMethod → Action
  sign_in totp otp : Text → Text → Action
  sign_out : Action
  me status providers : Action
  setup : SetupPayload → Text → Action
  other : Request → Action

unfoldable pub act : Env → Action → Tab → Tab
act env (profile p) w = (update_profile env p w).0
act env (password p) w = (change_password env p w).0
act env begin_totp w = (enroll_totp_begin env w).0
act env (confirm_totp code) w = (enroll_totp_confirm env code w).0
act env (disable current) w = (disable_totp env current w).0
act env (send_code token method) w = (send_otp_code env token method w).0
act env (sign_in address secret) w = (login env address secret w).0
act env (totp token code) w = (verify_totp env token code w).0
act env (otp token code) w = (verify_login_otp env token code w).0
act env sign_out w = (logout env w).0
act env me w = (fetch_me env w).0
act env status w = (fetch_setup_status env w).0
act env providers w = (fetch_oidc_providers env w).0
act env (setup p token) w = (perform_setup env p token w).0
act env (other r) w = (await_call env r w).0

unfoldable pub act_all : Env → List Action → Tab → Tab
act_all env [] w = w
act_all env (a ∷ rest) w = act_all env rest (act env a w)

module _ (env : Env) where
  keep_token-Syncs : (v : Json) → Syncs (keep_token env v)
  unfolding keep_token
  keep_token-Syncs v w h = ground (
    arith,
    set_given-IsInSync env.date_ms (get_text (codes "access_token") v)
        (get_text (codes "expires_at") v) w.storage h,
  )

  keep-Syncs : (r : Result Json) → Syncs (keep env r)
  unfolding keep
  keep-Syncs (err e) w h = h
  keep-Syncs (ok v) w h = keep_token-Syncs v w h

  keep_final-Syncs : (r : Result Json) → Syncs (keep_final env r)
  unfolding keep_final
  keep_final-Syncs (err e) w h = h
  keep_final-Syncs (ok v) w h = ground (arith, keep_token-Syncs v w h)

  act-IsInSync : (a : Action) (w : Tab) → IsInSync w.storage → IsInSync (act env a w).storage
  unfolding act update_profile change_password enroll_totp_begin enroll_totp_confirm disable_totp
      send_otp_code login verify_totp verify_login_otp logout fetch_me fetch_setup_status
      fetch_oidc_providers perform_setup
  act-IsInSync (profile p) w h = json_call-Syncs env _ w h
  act-IsInSync (password p) w h = keep-Syncs _ _ (json_call-Syncs env _ w h)
  act-IsInSync begin_totp w h = json_call-Syncs env _ w h
  act-IsInSync (confirm_totp code) w h = await_call-Syncs env _ w h
  act-IsInSync (disable current) w h = await_call-Syncs env _ w h
  act-IsInSync (send_code token method) w h = json_call-Syncs env _ w h
  act-IsInSync (sign_in address secret) w h = keep_final-Syncs _ _ (json_call-Syncs env _ w h)
  act-IsInSync (totp token code) w h = keep-Syncs _ _ (json_call-Syncs env _ w h)
  act-IsInSync (otp token code) w h = keep-Syncs _ _ (json_call-Syncs env _ w h)
  act-IsInSync sign_out w h = clear-IsInSync _ (await_call-Syncs env _ w h)
  act-IsInSync me w h = json_call-Syncs env _ w h
  act-IsInSync status w h = json_call-Syncs env _ w h
  act-IsInSync providers w h = json_call-Syncs env _ w h
  act-IsInSync (setup p token) w h = json_call-Syncs env _ w h
  act-IsInSync (other r) w h = await_call-Syncs env r w h

  act_all-IsInSync :
      (actions : List Action) (w : Tab)
      → IsInSync w.storage
      → IsInSync (act_all env actions w).storage
  unfolding act_all
  act_all-IsInSync [] w h = h
  act_all-IsInSync (a ∷ rest) w h = act_all-IsInSync rest (act env a w) (act-IsInSync a w h)

  -- In a browser, from any page load on and after any calls, with any server: a reload at `now` finds
  -- the access token that the tab holds, with its expiry, exactly if that is later than `now`, and
  -- no token otherwise.
  pub reload-act_all :
      (actions : List Action) (start : ℕ) (shadow : Option Shadow) (w w' : Tab) (t : Text)
      (now n : ℕ)
      → w.storage ≡ construct start true shadow
      → act_all env actions w ≡ w'
      → w'.storage.token ≡ some t
      → w'.storage.expires_at ≡ ms n
      → ((construct now true w'.storage.shadow).token ≡ (if ltb now n then some t else none))
        × ((construct now true w'.storage.shadow).expires_at ≡ (if ltb now n then ms n else null))
  reload-act_all actions start shadow w w' t now n loaded done held e =
      let v : IsInSync w.storage = rw loaded (construct-IsInSync start shadow) in
      reload-IsInSync t now n w'.storage (rw (← done) (act_all-IsInSync actions w v)) held e
