-- ===== src/Session/Auth/SignIn.antt =====
-- What signing in, signing out and asking for the user do with the session.
use netfleet.Common.{
  ℕ, ◌+◌, ◌≡◌, refl, ap, ◌∙◌, ◌↔◌, inl, inr, none, some, Bool, true, false, ◌&&◌, ◌||◌, arith,
  Bool-cases, length, Text, codes, ends_with-append, ltb, leb, ◌==◌,
}
use netfleet.Json.{Json, Fields, get, get_text}
use netfleet.Payload.{call, with_json, req}
use netfleet.Session.Storage.{get_access_token, set_given, clear, construct}
use netfleet.Session.Client.{
  Method, Env, Tab, Request, Reply, response, no_response, Result, ok, err, send, await_call,
  json_call, rethrow, outcome, json_of,
}
use netfleet.Session.Client.Traffic.{send-IsBootstrap}
use netfleet.Session.Client.Sync.{await_call-Syncs}
use netfleet.Session.Storage.Reload.{IsInSync}
use netfleet.Session.Auth.{
  is_final, is_null, given, keep_token, keep_final, login, logout, forget, signed_in, fetch_me,
}

-- The sign-in is complete: no second factor is asked for.
abbrev pub is_complete : Result Json → Bool
is_complete (err e) = false
is_complete (ok v) = is_final v

-- A response with a status of success.
abbrev pub is_success : Reply → Bool
is_success (no_response m) = false
is_success (response status reason body) = leb 200 status && ltb status 300

-- A 401, or a success with the body `null`.
abbrev pub answers_nobody : Reply → Bool
answers_nobody (no_response m) = false
answers_nobody (response status reason none) = status == 401
answers_nobody (response status reason (some v)) =
    status == 401 || leb 200 status && ltb status 300 && is_null v

module _ (env : Env) where
  json_call-storage :
      (req : Request) (w : Tab)
      → ((json_call env req w).0.storage ≡ (send env req w).0.storage)
        × ((json_call env req w).0.sent ≡ (send env req w).0.sent)
  unfolding json_call await_call
  json_call-storage req w = ground arith

  keep_final_pending :
      (r : Result Json) (w : Tab)
      → is_complete (rethrow (keep_final env r w).1) ≡ false
      → (keep_final env r w).0 ≡ w
  unfolding keep_final keep_token rethrow
  keep_final_pending (err e) w h = refl
  keep_final_pending (ok v) w h = ground arith

  is_final-is_null : (v : Json) → is_final v ≡ true → is_null v ≡ false
  unfolding is_final get_text get
  is_final-is_null Json.null h = cc
  is_final-is_null (Json.boolean b) h = refl
  is_final-is_null (Json.number n) h = refl
  is_final-is_null (Json.text t) h = refl
  is_final-is_null (Json.array vs) h = refl
  is_final-is_null (Json.object fs) h = refl

  pub keep_token-given :
      (v : Json) (w : Tab)
      → is_null v ≡ false
      → keep_token env v w ≡ (record w { storage = given env v w.storage }, ok v)
  unfolding keep_token
  keep_token-given v w h = rw h refl

  keep_final_complete :
      (r : Result Json) (w : Tab)
      → is_complete (rethrow (keep_final env r w).1) ≡ true
      → (v : Json) × (is_final v ≡ true)
        × (rethrow (keep_final env r w).1 ≡ ok v)
        × ((keep_final env r w).0.storage ≡ given env v w.storage)
        × ((keep_final env r w).0.sent ≡ w.sent)
  unfolding keep_final rethrow
  keep_final_complete (err e) w h = cc
  keep_final_complete (ok v) w h = elim (Bool-cases (is_final v)) [
    | inl final ↦
        let kept = keep_token-given v w (is_final-is_null v final) in
        (v, final, rw (final, kept) refl, rw (final, kept) refl, rw (final, kept) refl)
    | inr more ↦ absurd (ground arith)
  ]

  abbrev login_request : Text → Text → Request
  login_request address password =
      with_json (req "email" (Json.text address) (req "password" (Json.text password) Fields.end))
        (call env Method.post (codes "auth/login"))

  login_request-alone :
      (address password : Text) (w : Tab)
      → let w' = (json_call env (login_request address password) w).0 in
        (w'.storage ≡ (get_access_token w.now w.storage).0) × (length w'.sent ≡ length w.sent + 1)
  login_request-alone address password w =
      let r = login_request address password in
      let (storage, sent) = json_call-storage r w in
      let (alone, _, _, read) =
        send-IsBootstrap env r w (inr (ends_with-append env.api_base (codes "/auth/login"))) in
      (storage ∙ read, ap length sent ∙ ap length alone ∙ omega arith)

  -- A sign-in that fails, or that still wants a second factor, is one request, and changes of the
  -- storage only what reading the token changes: a session that was there stays.
  pub login_pending :
      (address password : Text) (w : Tab)
      → is_complete (login env address password w).1 ≡ false
      → ((login env address password w).0.storage ≡ (get_access_token w.now w.storage).0)
        × (length (login env address password w).0.sent ≡ length w.sent + 1)
  unfolding login
  login_pending address password w h =
      let (w', r) = json_call env (login_request address password) w in
      rw (keep_final_pending r w' h) (login_request-alone address password w)

  -- A sign-in that is complete is one request, whose answer it returns, and stores the access token
  -- and the expiry of that answer (`undefined` for the one that it does not carry) over what reading
  -- the token has left.
  pub login_complete :
      (address password : Text) (w : Tab)
      → is_complete (login env address password w).1 ≡ true
      → (v : Json) × (is_final v ≡ true)
        × ((login env address password w).1 ≡ ok v)
        × ((login env address password w).0.storage
            ≡ set_given env.date_ms
                (get_text (codes "access_token") v)
                (get_text (codes "expires_at") v)
                (get_access_token w.now w.storage).0)
        × (length (login env address password w).0.sent ≡ length w.sent + 1)
  unfolding login
  login_complete address password w h =
      let (w', r) = json_call env (login_request address password) w in
      let (v, final, result, stored, sent) = keep_final_complete r w' h in
      let (before, one) = login_request-alone address password w in
      (v, final, result, stored ∙ ap (given env v) before, ap length sent ∙ one)

  abbrev logout_request : Request
  logout_request = call env Method.post (codes "auth/logout")

  forget-outcome : (r : Reply) → (forget (outcome r) ≡ ok tt) ↔ (is_success r ≡ true)
  forget-outcome (no_response m) = (λ h. cc, λ h. cc)
  forget-outcome (response status reason body) = (λ h. ground arith, λ h. ground arith)

  -- Signing out makes the tab forget its token whatever the server answers, and without an answer
  -- too: it holds none, and no reload of the page finds one in sessionStorage, if the page runs in a
  -- browser. The call itself succeeds exactly if the server answers with a status of success. (The
  -- refresh cookie is the server's to remove; while it lasts, the next request may get a new token.)
  pub logout-forgets_token :
      (w : Tab) (later : ℕ)
      → IsInSync w.storage
      → ((logout env w).0.storage.token ≡ none)
        × ((construct later true (logout env w).0.storage.shadow).token ≡ none)
        × (((logout env w).1 ≡ ok tt) ↔ (is_success (send env logout_request w).1 ≡ true))
  unfolding logout clear construct await_call
  logout-forgets_token w later v =
      let v' = await_call-Syncs env logout_request w v in
      (refl, rw v'.windowed refl, forget-outcome (send env logout_request w).1)

  signed_in-answers :
      (r : Reply) → (signed_in (json_of (outcome r)) ≡ ok none) ↔ (answers_nobody r ≡ true)
  unfolding signed_in
  signed_in-answers (no_response m) = (λ h. cc, λ h. cc)
  signed_in-answers (response status reason none) = (λ h. ground arith, λ h. ground arith)
  signed_in-answers (response status reason (some v)) = (λ h. ground arith, λ h. ground arith)

  -- The user is taken for signed out exactly when the server's last answer, after what the client
  -- does about a first 401, is a 401, or is a success whose body is `null`. A network error, another
  -- status or an empty body is no such answer.
  pub fetch_me-signed_out :
      (w : Tab)
      → ((fetch_me env w).1 ≡ ok none)
        ↔ (answers_nobody (send env (call env Method.get (codes "auth/me")) w).1 ≡ true)
  unfolding fetch_me json_call await_call
  fetch_me-signed_out w = signed_in-answers (send env (call env Method.get (codes "auth/me")) w).1
