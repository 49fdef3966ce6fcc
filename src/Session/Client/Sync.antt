-- ===== src/Session/Client/Sync.antt =====
-- Every call of api.ts keeps the token's copy in sessionStorage in step with the token.
use netfleet.Common.{arith}
use netfleet.Session.Client.{
  Env, Tab, M, Request, Reply, response, no_response, fetch, finish_refresh, do_refresh,
  refresh_request, before_request, current_token, retry, after_response, send, await_call,
  json_call, store_token, TokenPair,
}
use netfleet.Session.Storage.Reload.{
  IsInSync, clear-IsInSync, set_access_token-IsInSync, get_access_token-IsInSync,
}

-- The computation keeps the storage in step.
abbrev pub Syncs {ℓ} : {A : Type ℓ} → M A → Type 0
Syncs m = (w : Tab) → IsInSync w.storage → IsInSync (m w).0.storage

module _ (env : Env) where
  pub store_token-IsInSync :
      (p : TokenPair) (w : Tab) → IsInSync w.storage → IsInSync (store_token env p w).storage
  unfolding store_token
  store_token-IsInSync p w v =
      set_access_token-IsInSync env.date_ms p.access_token p.expires_at w.storage v

  finish_refresh-Syncs : (r : Reply) → Syncs (finish_refresh env r)
  unfolding finish_refresh
  finish_refresh-Syncs (no_response m) w v = v
  finish_refresh-Syncs (response status reason body) w v = grind (arith, store_token-IsInSync)

  do_refresh-Syncs : Syncs (do_refresh env)
  unfolding do_refresh fetch
  do_refresh-Syncs w v = finish_refresh-Syncs (fetch env (refresh_request env) w).1 _ v

  before_request-Syncs : (req : Request) → Syncs (before_request env req)
  unfolding before_request current_token
  before_request-Syncs req w v = grind (arith, do_refresh-Syncs, get_access_token-IsInSync)

  after_response-Syncs : (req : Request) (reply : Reply) → Syncs (after_response env req reply)
  unfolding after_response retry fetch
  after_response-Syncs req (no_response m) w v = v
  after_response-Syncs req (response status reason body) w v =
      grind (arith, do_refresh-Syncs, clear-IsInSync)

  send-Syncs : (req : Request) → Syncs (send env req)
  unfolding send fetch
  send-Syncs req w v = after_response-Syncs _ _ _ (before_request-Syncs req w v)

  pub await_call-Syncs : (req : Request) → Syncs (await_call env req)
  unfolding await_call
  await_call-Syncs req w v = send-Syncs req w v

  pub json_call-Syncs : (req : Request) → Syncs (json_call env req)
  unfolding json_call
  json_call-Syncs req w v = await_call-Syncs req w v
