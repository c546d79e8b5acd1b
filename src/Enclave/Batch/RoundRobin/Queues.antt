-- ===== src/Enclave/Batch/RoundRobin/Queues.antt =====
-- enclave/src/batch.rs: queues that take turns, the specification of `select_batch_settlement_ids`. A
-- cursor stands for the queue of the settlements that it has not given.
use a.Prelude.{
  ℕ, zero, suc, ◌+◌, ◌≡◌, refl, ap, String, none, some, List, [], ◌∷◌, ◌++◌, length, drop,
  get_elem?, arith, drop-get_elem, drop-get_elem_none,
}
use a.Enclave.Batch.{ProviderBatchCursor}
use a.Enclave.Batch.RoundRobin.{Turn}

-- A provider and its settlements that wait.
abbrev pub Queue : Type 0
Queue = String × List String

abbrev pub queue : ProviderBatchCursor → Queue
queue c = (c.provider_id, drop c.next_index c.settlement_ids)

abbrev pub queues : List ProviderBatchCursor → List Queue
queues [] = []
queues (c ∷ cs) = queue c ∷ queues cs

-- One turn of every queue that is not empty, and what it leaves.
abbrev pub heads : List Queue → List Turn
heads [] = []
heads ((provider_id, []) ∷ qs) = heads qs
heads ((provider_id, sid ∷ sids) ∷ qs) = (provider_id, sid) ∷ heads qs

abbrev pub tails : List Queue → List Queue
tails [] = []
tails ((provider_id, []) ∷ qs) = (provider_id, []) ∷ tails qs
tails ((provider_id, sid ∷ sids) ∷ qs) = (provider_id, sids) ∷ tails qs

abbrev pub turns : ℕ → List Queue → List Turn
turns zero qs = []
turns (suc n) qs = heads qs ++ turns n (tails qs)

pub length_nil : {A : Type 0} (xs : List A) → length xs ≡ 0 → xs ≡ []
length_nil [] h = refl
length_nil (x ∷ xs) h = absurd (omega arith)

pub heads-tails_nil : (qs : List Queue) → heads qs ≡ [] → heads (tails qs) ≡ []
heads-tails_nil [] h = refl
heads-tails_nil ((provider_id, []) ∷ qs) h = heads-tails_nil qs h
heads-tails_nil ((provider_id, sid ∷ sids) ∷ qs) h = cc

pub tails_nil : (qs : List Queue) → length (heads qs) ≡ 0 → tails qs ≡ qs
tails_nil [] h = refl
tails_nil ((provider_id, []) ∷ qs) h = ap (λ r. (provider_id, []) ∷ r) (tails_nil qs h)
tails_nil ((provider_id, sid ∷ sids) ∷ qs) h = absurd (omega arith)

pub turns_nil : (n : ℕ) (qs : List Queue) → heads qs ≡ [] → turns n qs ≡ []
turns_nil zero qs h = refl
turns_nil (suc n) qs h = rw h (turns_nil n (tails qs) (heads-tails_nil qs h))

-- A cursor at its end is an empty queue, and one that gives a settlement steps to the next.
pub queue_end :
    (c : ProviderBatchCursor)
    → get_elem? c.settlement_ids c.next_index ≡ none
    → queue c ≡ (c.provider_id, [])
queue_end c h = rw (drop-get_elem_none c.settlement_ids c.next_index h)

pub queue_step :
    (c : ProviderBatchCursor) (sid : String)
    → get_elem? c.settlement_ids c.next_index ≡ some sid
    → queue c ≡ (c.provider_id, sid ∷ drop (c.next_index + 1) c.settlement_ids)
queue_step c sid h = rw (drop-get_elem c.settlement_ids c.next_index sid h)

pub heads_step :
    (c : ProviderBatchCursor) (cs : List ProviderBatchCursor) (sid : String)
    → get_elem? c.settlement_ids c.next_index ≡ some sid
    → length (heads (queues (c ∷ cs))) ≡ suc (length (heads (queues cs)))
heads_step c cs sid h = rw (queue_step c sid h) refl

pub heads_end :
    (c : ProviderBatchCursor) (cs : List ProviderBatchCursor)
    → get_elem? c.settlement_ids c.next_index ≡ none
    → length (heads (queues (c ∷ cs))) ≡ length (heads (queues cs))
heads_end c cs h = rw (queue_end c h) refl
