-- ===== src/Login/Token.antt =====
-- Where the page stands with the temporary token of a second factor.
pub mod Reach
use netfleet.Common.{
  ◌≡◌, refl, ◌⊎◌, inl, inr, Option, none, some, List, [], ◌∷◌, Bool, true, false, ◌||◌, Text, codes,
  Bool-cases, if◌then◌else◌,
}
use netfleet.Json.{Json, Items, get_text}
use netfleet.Session.Client.{Env, Tab, Result, ok, err, has_text}
use netfleet.Session.Auth.{login, send_otp_code, verify_totp, verify_login_otp}
use netfleet.Login.{
  Phase, OtpInfo, Page, Pending, logging_in, sending, verifying_totp, verifying_otp, MfaMethod,
  sent, Event, typed_email, typed_password, typed_code, submitted, reset, changed_factor, picked,
  settled, start, with_token, has_status, has_choice, after_status, after_login, end_login,
  end_sending, end_verify, done, resume, submit_in, pick_method, unless_pending, picked_in,
  other_from, reset_from, settle, reset_to_password, act,
}

-- A phase and the token: a choice and the code of the app need one, the password has none.
abbrev pub IsHeld : Phase → Option Text → Type 0
IsHeld Phase.password token = token ≡ none
IsHeld Phase.choose token = has_text token ≡ true
IsHeld Phase.totp token = has_text token ≡ true
IsHeld Phase.otp token = (has_text token ≡ true) ⊎ (token ≡ none)

-- The code that was sent has a channel.
abbrev pub IsInformed : Phase → Option OtpInfo → Type 0
IsInformed Phase.otp info = (i : OtpInfo) × (info ≡ some i)
IsInformed _ info = Unit

pub record IsSound (p : Page) : Type 0 where
  pub held : IsHeld p.phase p.mfa_temp_token
  pub choosable : (has_text p.mfa_temp_token ≡ true) ⊎ (has_choice p.methods ≡ false)
  pub informed : IsInformed p.phase p.otp_info

-- A sign-in that asks for a second factor gives the token for it.
abbrev pub CarriesToken : Env → Type 0
CarriesToken env =
    (address word : Text) (w : Tab) (v : Json)
    → (login env address word w).1 ≡ ok v
    → (has_status v (codes "mfa_choice")
        || has_status v (codes "mfa_required")
        || has_status v (codes "otp_required"))
      ≡ true
    → has_text (get_text (codes "mfa_temp_token") v) ≡ true

held-either : (f : Phase) (t : Option Text) → IsHeld f t → (has_text t ≡ true) ⊎ (t ≡ none)
held-either Phase.password t h = inr h
held-either Phase.choose t h = inl h
held-either Phase.totp t h = inl h
held-either Phase.otp t h = h

after_status-IsSound :
    (c t o : Bool) (next : Text) (v : Json) (p : Page)
    → ((c || t || o) ≡ true → has_text (get_text (codes "mfa_temp_token") v) ≡ true)
    → IsSound p
    → IsSound (after_status c t o next v p)
unfolding after_status
after_status-IsSound true t o next v p token s = record {
  held = token refl;
  choosable = inl (token refl);
  informed = tt;
}
after_status-IsSound false true o next v p token s = record {
  held = token refl;
  choosable = inl (token refl);
  informed = tt;
}
after_status-IsSound false false true next v p token s = record {
  held = inl (token refl);
  choosable = inl (token refl);
  informed = (_, refl);
}
after_status-IsSound false false false next v p token s = record {
  held = s.held;
  choosable = s.choosable;
  informed = s.informed;
}

end_login-IsSound :
    (next : Text) (r : Result Json) (p : Page)
    → ((v : Json)
        → r ≡ ok v
        → (has_status v (codes "mfa_choice")
            || has_status v (codes "mfa_required")
            || has_status v (codes "otp_required"))
          ≡ true
        → has_text (get_text (codes "mfa_temp_token") v) ≡ true)
    → IsSound p
    → IsSound (end_login next r p)
unfolding end_login after_login
end_login-IsSound next (ok v) p token s = after_status-IsSound _ _ _ next v p (token v refl) s
end_login-IsSound next (err e) p token s = record {
  held = s.held;
  choosable = s.choosable;
  informed = s.informed;
}

end_sending-IsSound : (r : Result Json) (p : Page) → IsSound p → IsSound (end_sending r p)
unfolding end_sending
end_sending-IsSound (ok v) p s = record {
  held = held-either p.phase p.mfa_temp_token s.held;
  choosable = s.choosable;
  informed = (_, refl);
}
end_sending-IsSound (err e) p s = record {
  held = s.held;
  choosable = s.choosable;
  informed = s.informed;
}

end_verify-IsSound :
    (next : Text) (r : Result Json) (p : Page) → IsSound p → IsSound (end_verify next r p)
unfolding end_verify
end_verify-IsSound next (ok v) p s = record {
  held = s.held;
  choosable = s.choosable;
  informed = s.informed;
}
end_verify-IsSound next (err e) p s = record {
  held = s.held;
  choosable = s.choosable;
  informed = s.informed;
}

done-IsSound : (p : Page) → IsSound p → IsSound (done p)
done-IsSound p s = record { held = s.held; choosable = s.choosable; informed = s.informed }

pub resume-IsSound :
    (env : Env) (next : Text) (q : Pending) (p : Page) (w : Tab)
    → CarriesToken env
    → IsSound p
    → IsSound (resume env next q p w).0
unfolding resume
resume-IsSound env next (logging_in address word) p w token s =
    done-IsSound _ (end_login-IsSound next (login env address word w).1 p (token address word w) s)
resume-IsSound env next (sending t m) p w token s =
    done-IsSound _ (end_sending-IsSound (send_otp_code env t m w).1 p s)
resume-IsSound env next (verifying_totp t code) p w token s =
    done-IsSound _ (end_verify-IsSound next (verify_totp env t code w).1 p s)
resume-IsSound env next (verifying_otp t code) p w token s =
    done-IsSound _ (end_verify-IsSound next (verify_login_otp env t code w).1 p s)
