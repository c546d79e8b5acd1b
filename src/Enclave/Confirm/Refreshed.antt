-- ===== src/Enclave/Confirm/Refreshed.antt =====
-- enclave/src/state.rs: credits whose oldest settlement is looked up again.
use a.Prelude.{
  ◌≡◌, refl, String, false, Option, Option-cases, Bool-cases, none, some, List, [], ◌∷◌, arith, inl,
  inr,
}
use mathlib.Core.Path.{subst}
use a.Prelude.Equality.{◌==◌, string_eq, contains}
use a.Prelude.Map.{lookup, adjust, lookup-insert}
use a.Enclave.State.{VaultState, ProviderCredit}
use a.Enclave.Confirm.{refresh_credit, refresh_multi_chain, refresh_oldest}
use a.Enclave.Confirm.Due.{Due, IsReduced, IsRefreshed}
use a.Enclave.Confirm.Taken.{lookup-adjust_other, adjust-some, adjust-none}

pub refresh_other :
    (p : String) (ids : List String) (v : VaultState)
    → contains ids p ≡ false
    → lookup p (refresh_oldest ids v).provider_credits ≡ lookup p v.provider_credits
unfolding refresh_oldest contains adjust
refresh_other p [] v h = refl
refresh_other p (id ∷ ids) v h =
    let f = refresh_credit v.settlement_history in
    ground (
      arith,
      string_eq.beq_iff p id,
      string_eq.beq_iff id p,
      lookup-adjust_other id p f v.provider_credits,
      refresh_other p ids (record v {
        provider_credits = adjust id f v.provider_credits;
        multi_chain_provider_credits =
            adjust id (refresh_multi_chain v.settlement_history) v.multi_chain_provider_credits;
      }),
    )

pub refresh-IsRefreshed :
    (p : String) (ids : List String) (v : VaultState)
    → IsRefreshed (lookup p v.provider_credits) (lookup p (refresh_oldest ids v).provider_credits)
unfolding refresh_oldest
refresh-IsRefreshed p [] v = go (lookup p v.provider_credits)
  where
    go : (o : Option ProviderCredit) → IsRefreshed o o
    go none = refl
    go (some c) = (c.oldest_credit_at, refl)
refresh-IsRefreshed p (id ∷ ids) v =
    let f = refresh_credit v.settlement_history in
    let m = adjust id f v.provider_credits in
    let after = lookup p (refresh_oldest (id ∷ ids) v).provider_credits in
    let rest : IsRefreshed (lookup p m) after = refresh-IsRefreshed p ids (record v {
      provider_credits = m;
      multi_chain_provider_credits =
          adjust id (refresh_multi_chain v.settlement_history) v.multi_chain_provider_credits;
    }) in
    elim (Option-cases (lookup id v.provider_credits)) [
      | inl e ↦
          subst (λ t. IsRefreshed (lookup p t) after) (adjust-none id f v.provider_credits e) rest
      | inr (c, e) ↦ elim (Bool-cases (p == id)) [
        | inl same ↦
            let start : some c ≡ lookup p v.provider_credits =
              ground (arith, string_eq.beq_iff p id) in
            let new : lookup p m ≡ some (f c) = ground (
              arith,
              adjust-some id c f v.provider_credits e,
              lookup-insert id p (f c) v.provider_credits,
            ) in
            subst (λ t. IsRefreshed t after) start (subst (λ t. IsRefreshed t after) new rest)
        | inr other ↦
            subst (λ t. IsRefreshed t after)
              (lookup-adjust_other id p f v.provider_credits
                (ground (arith, string_eq.beq_iff p id)))
              rest
      ]
    ]

pub IsReduced-IsRefreshed :
    (p : String) (dues : List Due) (before mid after : Option ProviderCredit)
    → IsReduced p dues before mid
    → IsRefreshed mid after
    → IsReduced p dues before after
IsReduced-IsRefreshed p dues none none after h k = k
IsReduced-IsRefreshed p dues none (some c) after h k = absurd (ground arith)
IsReduced-IsRefreshed p dues (some c) mid after (inl (over, e)) k =
    inl (over, subst (λ t. IsRefreshed t after) e k)
IsReduced-IsRefreshed p dues (some c) mid after (inr (left, at, sum, some_left, others, e)) k =
    let (last, f) = subst (λ t. IsRefreshed t after) e k in
    inr (left, last, sum, some_left, others, f)
