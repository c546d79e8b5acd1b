-- ===== src/Enclave/Confirm/Taken.antt =====
-- enclave/src/state.rs: payments taken off the credits of a map.
use a.Prelude.{
  ℕ, ◌-◌, ◌≡◌, ◌≢◌, refl, ap, ◌∙◌, String, false, ◌||◌, Option-cases, Bool-cases, none, some, List,
  [], ◌∷◌, arith, inl, inr,
}
use mathlib.Core.Path.{subst}
use a.Prelude.Equality.{◌==◌, string_eq, contains}
use a.Prelude.Map.{
  Map, IsMap, lookup, insert, adjust, lookup-insert, lookup-insert_self, adjust-IsMap,
}
use a.Enclave.State.{ProviderCredit}
use a.Enclave.Confirm.{take_credit, set_add}
use a.Enclave.Confirm.Due.{Due, sum_due, without_due, is_due}

pub lookup-adjust_other :
    (id p : String) (f : ProviderCredit → ProviderCredit) (m : Map String ProviderCredit)
    → p ≢ id
    → lookup p (adjust id f m) ≡ lookup p m
unfolding adjust
lookup-adjust_other id p f m differ = elim (Option-cases (lookup id m)) [
  | inl e ↦ ground arith
  | inr (v, e) ↦ ground (arith, lookup-insert id p (f v) m, string_eq.beq_iff p id)
]

pub adjust-some :
    (id : String) (c : ProviderCredit) (f : ProviderCredit → ProviderCredit)
    (m : Map String ProviderCredit)
    → lookup id m ≡ some c
    → adjust id f m ≡ insert id (f c) m
unfolding adjust
adjust-some id c f m e = rw (e, adjust) refl

pub adjust-none :
    (id : String) (f : ProviderCredit → ProviderCredit) (m : Map String ProviderCredit)
    → lookup id m ≡ none
    → adjust id f m ≡ m
unfolding adjust
adjust-none id f m e = rw (e, adjust) refl

-- The map once the payments are taken off the credits.
abbrev pub taken : List Due → Map String ProviderCredit → Map String ProviderCredit
taken [] m = m
taken ((sid, provider, amount) ∷ dues) m = taken dues (adjust provider (take_credit amount sid) m)

abbrev pub affected_by : List Due → List String → List String
affected_by [] affected = affected
affected_by ((sid, provider, amount) ∷ dues) affected = affected_by dues (set_add provider affected)

pub taken-IsMap : (dues : List Due) (m : Map String ProviderCredit) → IsMap m → IsMap (taken dues m)
taken-IsMap [] m h = h
taken-IsMap ((sid, provider, amount) ∷ dues) m h =
    taken-IsMap dues (adjust provider (take_credit amount sid) m)
      (adjust-IsMap provider (take_credit amount sid) m h)

pub lookup-adjust-none :
    (id p : String) (f : ProviderCredit → ProviderCredit) (m : Map String ProviderCredit)
    → lookup p m ≡ none
    → lookup p (adjust id f m) ≡ none
lookup-adjust-none id p f m h = elim (Option-cases (lookup id m)) [
  | inl e ↦ ap (lookup p) (adjust-none id f m e) ∙ h
  | inr (c, e) ↦
      ap (lookup p) (adjust-some id c f m e)
      ∙ ground (arith, lookup-insert id p (f c) m, string_eq.beq_iff p id)
]

pub lookup-adjust_self :
    (id : String) (c : ProviderCredit) (f : ProviderCredit → ProviderCredit)
    (m : Map String ProviderCredit)
    → lookup id m ≡ some c
    → lookup id (adjust id f m) ≡ some (f c)
lookup-adjust_self id c f m e =
    ap (lookup id) (adjust-some id c f m e) ∙ lookup-insert_self id (f c) m

pub lookup-taken-none :
    (p : String) (dues : List Due) (m : Map String ProviderCredit)
    → lookup p m ≡ none
    → lookup p (taken dues m) ≡ none
lookup-taken-none p [] m h = h
lookup-taken-none p ((sid, provider, amount) ∷ dues) m h =
    lookup-taken-none p dues (adjust provider (take_credit amount sid) m)
      (lookup-adjust-none provider p (take_credit amount sid) m h)

-- A credit after the payments to its provider.
abbrev pub lowered : String → List Due → ProviderCredit → ProviderCredit
lowered p dues c = record c {
  credited_amount = c.credited_amount - sum_due p dues;
  settlement_ids = without_due p dues c.settlement_ids;
}

pub with_amounts :
    (c : ProviderCredit) {left left' : ℕ} {ids ids' : List String}
    → left ≡ left'
    → ids ≡ ids'
    → some (record c { credited_amount = left; settlement_ids = ids })
      ≡ some (record c { credited_amount = left'; settlement_ids = ids' })
with_amounts c e f = rw (e, f) refl

pub lookup-taken-some :
    (p : String) (dues : List Due) (c : ProviderCredit) (m : Map String ProviderCredit)
    → lookup p m ≡ some c
    → lookup p (taken dues m) ≡ some (lowered p dues c)
lookup-taken-some p [] c m h = h ∙ with_amounts c (omega arith) refl
lookup-taken-some p ((sid, provider, amount) ∷ dues) c m h =
    let f = take_credit amount sid in
    elim (Bool-cases (p == provider)) [
      | inl same ↦
          let e : p ≡ provider = ground (arith, string_eq.beq_iff p provider) in
          let self : lookup p (adjust p f m) ≡ some (f c) = lookup-adjust_self p c f m h in
          let there : lookup p (adjust provider f m) ≡ some (f c) =
            subst (λ t. lookup p (adjust t f m) ≡ some (f c)) e self in
          lookup-taken-some p dues (f c) (adjust provider f m) there
          ∙ with_amounts c (ground arith) (ground arith)
      | inr other ↦
          let differ : p ≢ provider = ground (arith, string_eq.beq_iff p provider) in
          let there = lookup-adjust_other provider p f m differ ∙ h in
          lookup-taken-some p dues c (adjust provider f m) there
          ∙ with_amounts c (ground arith) (ground arith)
    ]

pub contains-set_add :
    (p x : String) (xs : List String) → contains (set_add x xs) p ≡ (p == x || contains xs p)
unfolding set_add contains
contains-set_add p x xs = ground (arith, string_eq.beq_iff p x)

pub contains-affected_by :
    (p : String) (dues : List Due) (affected : List String)
    → contains (affected_by dues affected) p ≡ (is_due p dues || contains affected p)
contains-affected_by p [] affected = refl
contains-affected_by p ((sid, provider, amount) ∷ dues) affected = ground (
  arith,
  contains-affected_by p dues (set_add provider affected),
  contains-set_add p provider affected,
)

pub lookup-taken_other :
    (p : String) (dues : List Due) (m : Map String ProviderCredit)
    → is_due p dues ≡ false
    → lookup p (taken dues m) ≡ lookup p m
lookup-taken_other p [] m h = refl
lookup-taken_other p ((sid, provider, amount) ∷ dues) m h =
    let f = take_credit amount sid in
    let differ : p ≢ provider = ground (arith, string_eq.beq_iff p provider) in
    lookup-taken_other p dues (adjust provider f m) (ground arith)
    ∙ lookup-adjust_other provider p f m differ
