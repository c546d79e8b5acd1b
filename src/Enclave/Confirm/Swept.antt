-- ===== src/Enclave/Confirm/Swept.antt =====
-- enclave/src/state.rs: the removal of the spent credits of a map.
use a.Prelude.{
  ℕ, ◌<◌, ◌≡◌, ◌≢◌, refl, String, true, false, ◌&&◌, Option, Option-cases, Bool-cases, none, some,
  List, [], ◌∷◌, arith, inl, inr, ◌⊎◌,
}
use a.Prelude.Equality.{string_eq, contains, remove}
use a.Prelude.Map.{Map, IsMap, lookup, erase, lookup-erase, erase-IsMap}
use a.Enclave.State.{ProviderCredit}
use a.Enclave.Payment.{is_spent}
use a.Enclave.Confirm.{spent_credits, erase_all, remove_all}
use a.Enclave.Confirm.Due.{Due, is_due, IsReduced}
use a.Enclave.Confirm.Taken.{
  taken, affected_by, taken-IsMap, lookup-taken-none, lowered, lookup-taken-some,
  contains-affected_by, lookup-taken_other,
}

-- What `remove_spent` does to the map.
abbrev pub swept : List String → Map String ProviderCredit → Map String ProviderCredit
swept ids m = erase_all (spent_credits ids m) m

pub lookup-erase_all :
    (p : String) (ids : List String) (m : Map String ProviderCredit)
    → IsMap m
    → lookup p (erase_all ids m) ≡ elim (contains ids p) [ true ↦ none | false ↦ lookup p m ]
unfolding erase_all contains
lookup-erase_all p [] m h = refl
lookup-erase_all p (id ∷ ids) m h = ground (
  arith,
  lookup-erase id p m h,
  lookup-erase_all p ids (erase id m) (erase-IsMap id m h),
  string_eq.beq_iff p id,
  string_eq.beq_iff id p,
)

pub contains-spent_some :
    (p : String) (ids : List String) (c : ProviderCredit) (m : Map String ProviderCredit)
    → lookup p m ≡ some c
    → contains (spent_credits ids m) p
      ≡ (contains ids p && is_spent c.credited_amount c.settlement_ids)
unfolding spent_credits contains
contains-spent_some p [] c m e = refl
contains-spent_some p (id ∷ ids) c m e =
    let rest = contains-spent_some p ids c m e in
    elim (Option-cases (lookup id m)) [
      | inl f ↦ ground (arith, rest, string_eq.beq_iff p id, string_eq.beq_iff id p)
      | inr (d, f) ↦ elim (Bool-cases (is_spent d.credited_amount d.settlement_ids)) [
        | inl spent ↦ ground (arith, rest, string_eq.beq_iff p id, string_eq.beq_iff id p)
        | inr unspent ↦ ground (arith, rest, string_eq.beq_iff p id, string_eq.beq_iff id p)
      ]
    ]

-- A credit that is swept owes nothing or lists nothing.
pub spent_or :
    (amount : ℕ) (ids : List String) → is_spent amount ids ≡ true → (amount ≡ 0) ⊎ (ids ≡ [])
unfolding is_spent
spent_or amount [] h = inr refl
spent_or amount (x ∷ ids) h = ground arith

pub unspent_and :
    (amount : ℕ) (ids : List String) → is_spent amount ids ≡ false → (0 < amount) × (ids ≢ [])
unfolding is_spent
unspent_and amount [] h = ground arith
unspent_and amount (x ∷ ids) h = ground arith

pub contains-remove :
    (p id : String) (xs : List String) → contains xs p ≡ false → contains (remove xs id) p ≡ false
unfolding contains remove
contains-remove p id [] h = h
contains-remove p id (x ∷ xs) h = ground (arith, contains-remove p id xs)

pub contains-remove_all :
    (p : String) (ids xs : List String)
    → contains xs p ≡ false
    → contains (remove_all ids xs) p ≡ false
unfolding remove_all
contains-remove_all p [] xs h = h
contains-remove_all p (id ∷ ids) xs h =
    contains-remove_all p ids (remove xs id) (contains-remove p id xs h)

-- The map once the payments are taken and the spent credits removed.
abbrev pub settled_map : List Due → Map String ProviderCredit → Map String ProviderCredit
settled_map dues m = swept (affected_by dues []) (taken dues m)

pub settled_map_other :
    (p : String) (dues : List Due) (m : Map String ProviderCredit)
    → IsMap m
    → is_due p dues ≡ false
    → lookup p (settled_map dues m) ≡ lookup p m
unfolding contains
settled_map_other p dues m h other =
    let m' = taken dues m in
    let ids = affected_by dues [] in
    let removed = lookup-erase_all p (spent_credits ids m') m' (taken-IsMap dues m h) in
    let affected = contains-affected_by p dues [] in
    let before = lookup-taken_other p dues m other in
    elim (Option-cases (lookup p m')) [
      | inl e ↦ ground (arith, removed, before, e)
      | inr (c, e) ↦
          ground (arith, removed, before, affected, other, contains-spent_some p ids c m' e)
    ]

pub settled_map-IsReduced :
    (p : String) (dues : List Due) (m : Map String ProviderCredit)
    → IsMap m
    → is_due p dues ≡ true
    → IsReduced p dues (lookup p m) (lookup p (settled_map dues m))
unfolding contains
settled_map-IsReduced p dues m h due = go (lookup p m) refl
  where
    go :
        (before : Option ProviderCredit)
        → lookup p m ≡ before
        → IsReduced p dues before (lookup p (settled_map dues m))
    go none e =
        let m' = taken dues m in
        let ids = affected_by dues [] in
        ground (
          arith,
          lookup-erase_all p (spent_credits ids m') m' (taken-IsMap dues m h),
          lookup-taken-none p dues m e,
        )
    go (some c) e =
        let m' = taken dues m in
        let ids = affected_by dues [] in
        let c' = lowered p dues c in
        let there = lookup-taken-some p dues c m e in
        let removed = lookup-erase_all p (spent_credits ids m') m' (taken-IsMap dues m h) in
        let affected = contains-affected_by p dues [] in
        let found = contains-spent_some p ids c' m' there in
        elim (Bool-cases (is_spent c'.credited_amount c'.settlement_ids)) [
          | inl spent ↦ inl (
            ground (arith, spent_or c'.credited_amount c'.settlement_ids spent),
            ground (arith, removed, found, affected),
          )
          | inr unspent ↦
              let (some_left, others) = unspent_and c'.credited_amount c'.settlement_ids unspent in
              inr (
                c'.credited_amount,
                c.oldest_credit_at,
                omega (arith, some_left),
                some_left,
                others,
                ground (arith, removed, found, affected, there),
              )
        ]
