-- ===== src/Audit/Sessions.antt =====
-- A group of a session shows that session.
use netfleet.Common.{
  ◌≡◌, refl, sym, ap, ◌∙◌, ◌≢◌, List, [], ◌∷◌, ◌++◌, Option, none, some, Text, All, codes,
  All-append, text_eq, text_eq_iff, Bool-cases, inl, inr,
}
use netfleet.Audit.{AuditLogEntry, Group, key_of, or_else, add, add_all, group_by_session}
use netfleet.Audit.Groups.{IsUniform, add-IsUniform}

-- The id of its session, if it has one, is not one of the keys that stand for no session.
abbrev pub IsOrdinary : AuditLogEntry → Type 0
IsOrdinary e = (t : Text) → e.session_id ≢ some (codes "none:" ++ t)

same_session :
    (s t : Option Text) (u v : Text)
    → ((w : Text) → s ≢ some (codes "none:" ++ w))
    → ((w : Text) → t ≢ some (codes "none:" ++ w))
    → or_else s (codes "none:" ++ u) ≡ or_else t (codes "none:" ++ v)
    → s ≡ t
unfolding or_else
same_session none none u v hs ht e = refl
same_session none (some b) u v hs ht e = absurd (ht u (ap some (sym e)))
same_session (some a) none u v hs ht e = absurd (hs v (ap some e))
same_session (some a) (some b) u v hs ht e = ap some e

key_of-session :
    (a b : AuditLogEntry)
    → IsOrdinary a
    → IsOrdinary b
    → key_of a ≡ key_of b
    → a.session_id ≡ b.session_id
unfolding key_of
key_of-session a b ha hb e = same_session a.session_id b.session_id _ _ ha hb e

-- Every entry of the group is of its session.
abbrev pub IsOfSession : Group → Type 0
IsOfSession g = All (λ e. (e.session_id ≡ g.session_id) × IsOrdinary e) g.rows

joins_session :
    (rows : List AuditLogEntry) (key : Text) (session : Option Text) (e : AuditLogEntry)
    → rows ≢ []
    → All (λ x. key_of x ≡ key) rows
    → All (λ x. (x.session_id ≡ session) × IsOrdinary x) rows
    → IsOrdinary e
    → key ≡ key_of e
    → e.session_id ≡ session
joins_session [] key session e some_row u o h k = absurd (some_row refl)
joins_session (x ∷ rows) key session e some_row u o h k =
    sym (key_of-session x e o.0.1 h (u.0 ∙ k)) ∙ o.0.0

add-IsOfSession :
    (e : AuditLogEntry) (gs : List Group)
    → IsOrdinary e
    → All IsUniform gs
    → All IsOfSession gs
    → All IsOfSession (add e gs)
unfolding add
add-IsOfSession e [] h u o = (((refl, h), tt), tt)
add-IsOfSession e (g ∷ []) h u o = elim (Bool-cases (text_eq g.key (key_of e))) [
  | inl same ↦
      let key = (text_eq_iff g.key (key_of e)).0 same in
      let joined = joins_session g.rows g.key g.session_id e u.0.0 u.0.1 o.0 h key in
      rw same (
        All-append (λ x. (x.session_id ≡ g.session_id) × IsOrdinary x) g.rows (e ∷ []) o.0
            ((joined, h), tt),
        tt,
      )
  | inr differs ↦ rw differs (o.0, (((refl, h), tt), tt))
]
add-IsOfSession e (g ∷ h ∷ gs) n u o = (o.0, add-IsOfSession e (h ∷ gs) n u.1 o.1)

add_all-IsOfSession :
    (items : List AuditLogEntry) (gs : List Group)
    → All IsOrdinary items
    → All IsUniform gs
    → All IsOfSession gs
    → All IsOfSession (add_all items gs)
unfolding add_all
add_all-IsOfSession [] gs h u o = o
add_all-IsOfSession (e ∷ items) gs h u o =
    add_all-IsOfSession items (add e gs) h.1 (add-IsUniform e gs u) (add-IsOfSession e gs h.0 u o)

-- If no session id of the page begins with "none:", then the session of a group is that of every
-- entry in it, none included.
pub group_by_session-IsOfSession :
    (items : List AuditLogEntry) → All IsOrdinary items → All IsOfSession (group_by_session items)
unfolding group_by_session
group_by_session-IsOfSession items h = add_all-IsOfSession items [] h tt tt
