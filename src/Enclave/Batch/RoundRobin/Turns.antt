-- ===== src/Enclave/Batch/RoundRobin/Turns.antt =====
-- enclave/src/batch.rs: the loops of `select_batch_settlement_ids` against their specification by
-- queues that take turns.
use a.Prelude.{
  ℕ, zero, suc, ◌+◌, ◌≤◌, ◌<◌, ◌≡◌, refl, ap, ◌∙◌, inl, inr, Bool, true, false, ◌||◌, ◌&&◌, some,
  List, [], ◌∷◌, ◌++◌, length, take, drop, get_elem?, ltb, arith, Bool-cases, leb, sym,
  Option-cases, length-append, length-take, take-append, take-append_long, take_long,
}
use mathlib.Core.List.{append_assoc, append-nil}
use a.Prelude.Sort.{sort_by}
use a.Enclave.Batch.{ProviderBatchCursor}
use a.Enclave.Batch.RoundRobin.{
  Turn, run_round, run_rounds, retain_nonempty, older_first, select_batch_settlement_ids,
}
use a.Enclave.Batch.RoundRobin.Queues.{
  queues, heads, tails, turns, length_nil, tails_nil, turns_nil, queue_end, queue_step, heads_step,
  heads_end,
}

module _ (max_entries : ℕ) where
  -- A round selects the heads of the queues, as far as there is room.
  round_selected :
      (cs : List ProviderBatchCursor) (selected : List Turn) (advanced : Bool)
      → length selected ≤ max_entries
      → (run_round max_entries cs selected advanced).selected
        ≡ take max_entries (selected ++ heads (queues cs))
  unfolding run_round
  round_selected [] selected advanced h =
      rw (append-nil selected) (sym (take_long max_entries selected h))
  round_selected (c ∷ cs) selected advanced h =
      elim (Bool-cases (leb max_entries (length selected))) [
        | inl full ↦ rw (full, run_round) (sym (take-append max_entries selected _ (ground arith)))
        | inr room ↦ elim (Option-cases (get_elem? c.settlement_ids c.next_index)) [
          | inl e ↦ rw (room, e, run_round, queue_end c e) (round_selected cs selected advanced h)
          | inr (sid, e) ↦
              rw (room, e, run_round, queue_step c sid e)
                (round_selected cs (selected ++ (c.provider_id, sid) ∷ []) true
                    (ground (arith, length-append selected ((c.provider_id, sid) ∷ [])))
                  ∙ ap (take max_entries)
                      (append_assoc selected ((c.provider_id, sid) ∷ []) (heads (queues cs))))
        ]
      ]

  -- A round that has room for every head leaves the tails.
  round_cursors :
      (cs : List ProviderBatchCursor) (selected : List Turn) (advanced : Bool)
      → length selected + length (heads (queues cs)) ≤ max_entries
      → queues (run_round max_entries cs selected advanced).cursors ≡ tails (queues cs)
  unfolding run_round
  round_cursors [] selected advanced h = refl
  round_cursors (c ∷ cs) selected advanced h =
      elim (Option-cases (get_elem? c.settlement_ids c.next_index)) [
        | inl e ↦ elim (Bool-cases (leb max_entries (length selected))) [
          | inl full ↦
              rw (full, run_round, queue_end c e)
                (ap (λ qs. (c.provider_id, []) ∷ qs)
                  (sym (tails_nil (queues cs) (ground (arith, heads_end c cs e)))))
          | inr room ↦
              rw (room, e, run_round, queue_end c e)
                (ap (λ qs. (c.provider_id, []) ∷ qs)
                  (round_cursors cs selected advanced (ground (arith, heads_end c cs e))))
        ]
        | inr (sid, e) ↦
            let room : leb max_entries (length selected) ≡ false =
              ground (arith, heads_step c cs sid e) in
            rw (room, e, run_round, queue_step c sid e)
              (ap (λ qs. (c.provider_id, drop (c.next_index + 1) c.settlement_ids) ∷ qs)
                (round_cursors cs (selected ++ (c.provider_id, sid) ∷ []) true (
                  omega (
                    arith,
                    h,
                    heads_step c cs sid e,
                    length-append selected ((c.provider_id, sid) ∷ []),
                  ))))
      ]

  -- It advances if some queue is not empty and there is room.
  round_advanced :
      (cs : List ProviderBatchCursor) (selected : List Turn) (advanced : Bool)
      → (run_round max_entries cs selected advanced).advanced
        ≡ advanced || (ltb (length selected) max_entries && ltb 0 (length (heads (queues cs))))
  unfolding run_round
  round_advanced [] selected advanced = ground arith
  round_advanced (c ∷ cs) selected advanced =
      elim (Bool-cases (leb max_entries (length selected))) [
        | inl full ↦ rw (full, run_round) (ground arith)
        | inr room ↦ elim (Option-cases (get_elem? c.settlement_ids c.next_index)) [
          | inl e ↦ rw (room, e, run_round, queue_end c e) (round_advanced cs selected advanced)
          | inr (sid, e) ↦
              rw (room, e, run_round, queue_step c sid e)
                (round_advanced cs (selected ++ (c.provider_id, sid) ∷ []) true ∙ ground arith)
        ]
      ]

  round_length :
      (cs : List ProviderBatchCursor) (selected : List Turn)
      → length selected < max_entries
      → 0 < length (heads (queues cs))
      → (length (run_round max_entries cs selected false).selected ≤ max_entries)
        × (length selected < length (run_round max_entries cs selected false).selected)
  round_length cs selected h k = rw (round_selected cs selected false (omega arith)) (
      ground (
        arith,
        length-append selected (heads (queues cs)),
        length-take max_entries (selected ++ heads (queues cs)),
      ))

  -- What is selected after a round and after the turns that follow it.
  round_then :
      (n : ℕ) (cs : List ProviderBatchCursor) (selected : List Turn)
      → length selected ≤ max_entries
      → take max_entries (
          (run_round max_entries cs selected false).selected
          ++ turns n (queues (run_round max_entries cs selected false).cursors))
        ≡ take max_entries (selected ++ turns (suc n) (queues cs))
  round_then n cs selected h =
      let hs = heads (queues cs) in
      let all = length-append selected hs in
      elim (Bool-cases (leb (length selected + length hs) max_entries)) [
        | inl fits ↦
            rw
              (
                round_selected cs selected false h,
                round_cursors cs selected false (ground arith),
                take_long max_entries (selected ++ hs) (ground arith),
              )
              (ap (take max_entries) (append_assoc selected hs (turns n (tails (queues cs)))))
        | inr over ↦
            rw
              (
                round_selected cs selected false h,
                take-append max_entries (take max_entries (selected ++ hs))
                    (turns n (queues (run_round max_entries cs selected false).cursors))
                    (ground (arith, length-take max_entries (selected ++ hs))),
              )
              (sym (
                  take-append_long max_entries (selected ++ hs) (turns n (tails (queues cs)))
                    (ground arith))
                ∙ ap (take max_entries) (append_assoc selected hs (turns n (tails (queues cs)))))
      ]

  -- The loop, with more rounds than there is room, selects what the queues give in turn.
  run_rounds-turns :
      (fuel n : ℕ) (cs : List ProviderBatchCursor) (selected : List Turn)
      → length selected ≤ max_entries
      → max_entries < length selected + fuel
      → max_entries ≤ length selected + n
      → run_rounds fuel max_entries cs selected
        ≡ some (take max_entries (selected ++ turns n (queues cs)))
  unfolding run_rounds
  run_rounds-turns zero n cs selected h f m = absurd (omega arith)
  run_rounds-turns (suc fuel) zero cs selected h f m =
      let full : ltb (length selected) max_entries ≡ false = ground arith in
      rw (full, run_rounds, take-append max_entries selected [] (omega arith)) refl
  run_rounds-turns (suc fuel) (suc n) cs selected h f m =
      elim (Bool-cases (ltb (length selected) max_entries)) [
        | inl room ↦ elim (Bool-cases (ltb 0 (length (heads (queues cs))))) [
          | inl some_head ↦
              let go : (run_round max_entries cs selected false).advanced ≡ true =
                round_advanced cs selected false ∙ rw (room, some_head) refl in
              let grown = round_length cs selected (ground arith) (ground arith) in
              rw (room, go, run_rounds)
                (run_rounds-turns fuel n (run_round max_entries cs selected false).cursors
                    (run_round max_entries cs selected false).selected grown.0
                    (omega (arith, grown.1)) (omega (arith, grown.1))
                  ∙ ap some (round_then n cs selected h))
          | inr no_head ↦
              let stop : (run_round max_entries cs selected false).advanced ≡ false =
                round_advanced cs selected false ∙ rw (room, no_head) refl in
              let idle : heads (queues cs) ≡ [] = length_nil _ (ground arith) in
              rw
                (
                  room,
                  stop,
                  run_rounds,
                  round_selected cs selected false h,
                  turns_nil (suc n) (queues cs) idle,
                  idle,
                )
                refl
        ]
        | inr full ↦
            rw
              (
                full,
                run_rounds,
                take-append max_entries selected (turns (suc n) (queues cs)) (ground arith),
              )
              refl
      ]

-- The selection ends within its rounds, and it selects the first settlements, as many as fit, of
-- the fair order that takes one settlement of each provider in turn, the provider with the oldest
-- credit first.
pub select_batch_settlement_ids-turns :
    (cursors : List ProviderBatchCursor) (max_entries : ℕ)
    → select_batch_settlement_ids cursors max_entries
      ≡ some (
          take max_entries
            (turns max_entries (queues (sort_by older_first (retain_nonempty cursors)))))
unfolding select_batch_settlement_ids
select_batch_settlement_ids-turns cursors max_entries =
    run_rounds-turns max_entries (max_entries + 1) max_entries _ [] (omega arith) (omega arith)
      (omega arith)
