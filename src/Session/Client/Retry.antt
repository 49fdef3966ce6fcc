-- ===== src/Session/Client/Retry.antt =====
-- What the two hooks of api.ts do with a token and with a 401.
use netfleet.Common.{ℕ, ◌≡◌, refl, none, some, ◌∷◌, Bool, true, false, ◌&&◌, arith, Text, ◌==◌}
use netfleet.Json.{Json}
use netfleet.Session.Client.{
  Env, Tab, Request, Reply, response, no_response, fetch, finish_refresh, do_refresh,
  refresh_request, current_token, before_request, retry, after_response, skips_retry, is_ok,
  TokenPair, token_pair, store_token, has_text,
}
use netfleet.Session.Storage.{is_truthy, is_before, get_access_token, set_access_token}

-- The server said no.
abbrev pub is_rejection : Reply → Bool
is_rejection (no_response m) = false
is_rejection (response status reason body) = status == 401

-- The server gave new tokens, the first of which is no empty string.
pub record Grants (r : Reply) (p : TokenPair) : Type 0 where
  pub status : ℕ
  pub reason : Text
  pub body : Json
  pub shape : r ≡ response status reason (some body)
  pub success : is_ok status ≡ true
  pub pair : token_pair body ≡ some p
  pub filled : has_text (some p.access_token) ≡ true

module _ (env : Env) where
  finish_refresh-Grants :
      (r : Reply) (p : TokenPair) (w : Tab)
      → Grants r p
      → finish_refresh env r w
        ≡ (store_token env p (record w { last_refresh_rejected = false }), some p.access_token)
  unfolding finish_refresh
  finish_refresh-Grants r p w g = rw (g.shape, g.success, finish_refresh) (rw g.pair refl)

  -- When the server answers 401 to a request that is not excluded, and grants new tokens to the
  -- refresh, the request is sent once more with the new access token, which the storage now holds
  -- too, and its answer is the call's.
  pub after_response-Grants :
      (req : Request) (reply : Reply) (w : Tab) (p : TokenPair)
      → is_rejection reply ≡ true
      → skips_retry req.url ≡ false
      → Grants (env.serve w.sent (refresh_request env)).0 p
      → let again = record req { bearer = some p.access_token } in
        ((after_response env req reply w).0.sent ≡ again ∷ refresh_request env ∷ w.sent)
        × ((after_response env req reply w).0.storage.token ≡ some p.access_token)
        × ((after_response env req reply w).1 ≡ (env.serve (refresh_request env ∷ w.sent) again).0)
  unfolding after_response retry do_refresh fetch store_token set_access_token
  after_response-Grants req (no_response m) w p h no_skip g = cc
  after_response-Grants req (response status reason body) w p h no_skip g =
      let (w', r) = fetch env (refresh_request env) w in
      ground (arith, finish_refresh-Grants r p w' g, g.filled)

  -- The token that `beforeRequest` puts on a request is the one that the storage then holds, and its
  -- expiry, if a time is stored for it, has not passed when it is put there.
  pub before_request-bearer :
      (req : Request) (w : Tab) (t : Text)
      → req.bearer ≡ none
      → (before_request env req w).1.bearer ≡ some t
      → ((before_request env req w).0.storage.token ≡ some t)
        × (is_truthy (before_request env req w).0.storage.expires_at
              && is_before
                  (before_request env req w).0.storage.expires_at
                  (before_request env req w).0.now
            ≡ false)
  unfolding before_request current_token get_access_token
  before_request-bearer req w t bare set = ground arith
