-- ===== src/Audit/Groups.antt =====
-- The groups are the runs of entries with one key.
use netfleet.Common.{
  ◌≡◌, refl, sym, ap, ◌∙◌, ◌≢◌, List, [], ◌∷◌, ◌++◌, Bool, true, false, All, All-append, text_eq,
  text_eq_iff, Bool-cases, inl, inr,
}
use mathlib.Core.List.{append-nil, append_assoc}
use netfleet.Audit.{AuditLogEntry, Group, key_of, new_group, add, add_all, group_by_session}

-- The entries of the groups, one group after the other.
abbrev pub entries : List Group → List AuditLogEntry
entries [] = []
entries (g ∷ gs) = g.rows ++ entries gs

-- A group holds entries, and all of them have its key.
abbrev pub IsUniform : Group → Type 0
IsUniform g = (g.rows ≢ []) × All (λ e. key_of e ≡ g.key) g.rows

-- Neighbours have different keys.
abbrev pub IsApart : List Group → Type 0
IsApart [] = Unit
IsApart (g ∷ []) = Unit
IsApart (g ∷ h ∷ gs) = (g.key ≢ h.key) × IsApart (h ∷ gs)

-- What a list of groups is to be for a list of entries.
pub record IsGrouping (items : List AuditLogEntry) (gs : List Group) : Type 0 where
  pub whole : entries gs ≡ items
  pub uniform : All IsUniform gs
  pub apart : IsApart gs

append_ne_nil : (xs : List AuditLogEntry) (e : AuditLogEntry) → xs ++ e ∷ [] ≢ []
append_ne_nil [] e h = cc
append_ne_nil (x ∷ xs) e h = cc

new_group-IsUniform : (e : AuditLogEntry) → IsUniform (new_group e)
new_group-IsUniform e = (append_ne_nil [] e, (refl, tt))

entries-add : (e : AuditLogEntry) (gs : List Group) → entries (add e gs) ≡ entries gs ++ e ∷ []
unfolding add
entries-add e [] = refl
entries-add e (g ∷ []) = elim (Bool-cases (text_eq g.key (key_of e))) [
  | inl same ↦ rw (same, append-nil (g.rows ++ e ∷ []), append-nil g.rows) refl
  | inr differs ↦ rw (differs, append_assoc) refl
]
entries-add e (g ∷ h ∷ gs) =
    rw (entries-add e (h ∷ gs)) (sym (append_assoc g.rows (entries (h ∷ gs)) (e ∷ [])))

pub add-IsUniform :
    (e : AuditLogEntry) (gs : List Group) → All IsUniform gs → All IsUniform (add e gs)
unfolding add
add-IsUniform e [] u = (new_group-IsUniform e, tt)
add-IsUniform e (g ∷ []) u = elim (Bool-cases (text_eq g.key (key_of e))) [
  | inl same ↦
      let key = (text_eq_iff g.key (key_of e)).0 same in
      rw same (
        (
          append_ne_nil g.rows e,
          All-append (λ x. key_of x ≡ g.key) g.rows (e ∷ []) u.0.1 (sym key, tt),
        ),
        tt,
      )
  | inr differs ↦ rw differs (u.0, (new_group-IsUniform e, tt))
]
add-IsUniform e (g ∷ h ∷ gs) u = (u.0, add-IsUniform e (h ∷ gs) u.1)

-- The first group keeps its key.
add-IsApart_under :
    (e : AuditLogEntry) (g h : Group) (gs : List Group)
    → g.key ≢ h.key
    → IsApart (add e (h ∷ gs))
    → IsApart (g ∷ add e (h ∷ gs))
unfolding add
add-IsApart_under e g h [] n a = elim (Bool-cases (text_eq h.key (key_of e))) [
  | inl same ↦ rw same (n, tt)
  | inr differs ↦ rw differs (n, (rw differs at a))
]
add-IsApart_under e g h (k ∷ gs) n a = (n, a)

differ : {b : Bool} → b ≡ true → b ≢ false
differ h k = cc

add-IsApart : (e : AuditLogEntry) (gs : List Group) → IsApart gs → IsApart (add e gs)
unfolding add
add-IsApart e [] a = tt
add-IsApart e (g ∷ []) a = elim (Bool-cases (text_eq g.key (key_of e))) [
  | inl same ↦ rw same tt
  | inr differs ↦
      rw differs ((λ equal. absurd (differ ((text_eq_iff g.key (key_of e)).1 equal) differs)), tt)
]
add-IsApart e (g ∷ h ∷ gs) a = add-IsApart_under e g h gs a.0 (add-IsApart e (h ∷ gs) a.1)

add_all-IsGrouping :
    (items seen : List AuditLogEntry) (gs : List Group)
    → IsGrouping seen gs
    → IsGrouping (seen ++ items) (add_all items gs)
unfolding add_all
add_all-IsGrouping [] seen gs k = rw append-nil k
add_all-IsGrouping (e ∷ items) seen gs k =
    let more : IsGrouping (seen ++ e ∷ []) (add e gs) = record {
      whole = entries-add e gs ∙ ap (λ es. es ++ e ∷ []) k.whole;
      uniform = add-IsUniform e gs k.uniform;
      apart = add-IsApart e gs k.apart;
    } in
    let rest = add_all-IsGrouping items (seen ++ e ∷ []) (add e gs) more in rw append_assoc at rest

-- The groups hold the entries of the page in their order, each once; the entries of a group, of
-- which there is at least one, have its key; and neighbouring groups have different keys.
pub group_by_session-IsGrouping :
    (items : List AuditLogEntry) → IsGrouping items (group_by_session items)
unfolding group_by_session
group_by_session-IsGrouping items =
    add_all-IsGrouping items [] [] (record { whole = refl; uniform = tt; apart = tt })
