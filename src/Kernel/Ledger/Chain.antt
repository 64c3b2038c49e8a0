-- ===== src/Kernel/Ledger/Chain.antt =====
-- The events of one mission: numbered, linked by their hashes, and accepted by the reducer.
use mathlib.Core.List.{map-append}
use second_brain_coordinatio.Prelude.{
  ℕ, suc, ◌<◌, Text, codes, text_eq, text_eq_iff, mem_text, ◌≡◌, ◌≢◌, refl, sym, true, false,
  Option, some, List, [], ◌∷◌, ◌++◌, ok, ◌>>=◌, length, length-append, last, last-append, map,
  arith, ap, ◌∙◌, ◌⊎◌, Bool-cases, inl, inr, All, >>=-ok, >>=-ext, >>=-assoc,
}
use mathlib.Core.Path.{subst}
use second_brain_coordinatio.Prelude.Int.{pos}
use second_brain_coordinatio.Kernel.Schemas
use second_brain_coordinatio.Kernel.Schemas.{State, active, event_of_text, Event}
use second_brain_coordinatio.Kernel.Reducers.{reduce_state, reduce_all}
use second_brain_coordinatio.Kernel.Canonical.{
  Envelope, envelope, event_hash, genesis_previous_hash,
}
use second_brain_coordinatio.Kernel.Canonical.Json.{Value, int, obj, jcs_dumps, sort_items}
use second_brain_coordinatio.Kernel.Canonical.RoundTrip.{canon, jcs_dumps-eq_iff}
use second_brain_coordinatio.Kernel.Verifier.{
  EventRecord, covered, Progress, fresh, verify_event, verify_events,
}
use second_brain_coordinatio.Kernel.Tables.{row_of, get_field, hash_or_genesis}
use second_brain_coordinatio.Kernel.Ledger.Rows.{
  NumberedFrom, NumberedFrom-append, reread, event_hash-reread,
}

-- Two texts that are hashed to one.
abbrev pub Collision : (Text → Text) → Type 0
Collision sha256 = (a : Text) × (b : Text) × (a ≢ b) × (sha256 a ≡ sha256 b)

abbrev pub event_of : EventRecord → Event
event_of e = event_of_text e.event_type

pub reduce_all-append :
    (s : State) (es : List Event) (e : Event)
    → reduce_all s (es ++ e ∷ []) ≡ (reduce_all s es >>= λ t. reduce_state t e)
unfolding reduce_all
reduce_all-append s [] e = >>=-ok (reduce_state s e)
reduce_all-append s (x ∷ es) e =
    >>=-ext (reduce_state s x) (λ t. reduce_all t (es ++ e ∷ []))
      (λ t. reduce_all t es >>= λ u. reduce_state u e) (λ t. reduce_all-append t es e)
    ∙ sym (>>=-assoc (reduce_state s x) (λ t. reduce_all t es) (λ u. reduce_state u e))

-- The sequence number that an envelope's text shows.
abbrev nat_or_zero : Option Value → ℕ
nat_or_zero (some (int (pos n))) = n
nat_or_zero _ = 0

seq_in : Value → ℕ
seq_in (obj fs) = nat_or_zero (get_field (codes "state_seq") fs)
seq_in _ = 0

seq_in-envelope :
    (previous : Text) (e : Envelope) → seq_in (canon (envelope previous e)) ≡ e.state_seq
unfolding seq_in canon envelope sort_items get_field
seq_in-envelope previous e = refl

pub verify_events-append :
    (sha256 : Text → Text) (p : Progress) (es : List EventRecord) (e : EventRecord)
    → verify_events sha256 p (es ++ e ∷ [])
      ≡ (verify_events sha256 p es >>= λ q. verify_event sha256 q e)
unfolding verify_events
verify_events-append sha256 p [] e = >>=-ok (verify_event sha256 p e)
verify_events-append sha256 p (x ∷ es) e =
    >>=-ext (verify_event sha256 p x) (λ q. verify_events sha256 q (es ++ e ∷ []))
      (λ q. verify_events sha256 q es >>= λ r. verify_event sha256 r e)
      (λ q. verify_events-append sha256 q es e)
    ∙ sym (
        >>=-assoc (verify_event sha256 p x) (λ q. verify_events sha256 q es)
          (λ r. verify_event sha256 r e))

module _ (sha256 : Text → Text) where
  -- A hash that covers a sequence number below `n`.
  abbrev HashBelow : ℕ → Text → Type 0
  HashBelow n h =
      (previous : Text) × (e : Envelope) × (h ≡ event_hash sha256 previous e) × (e.state_seq < n)

  -- The verification passes, having seen hashes of the numbers below `n` only.
  abbrev Verified : List EventRecord → ℕ → Text → Type 0
  Verified es n h =
      (seen : List Text) × (verify_events sha256 fresh es
        ≡ ok (record { index = n; expected_seq = n; prev_hash = h; seen_hashes = seen }))
      × All (HashBelow n) seen

  pub record IsChain (es : List EventRecord) (s : State) (n : ℕ) : Type 0 where
    pub numbered : NumberedFrom 0 es
    pub counted : length es ≡ suc n
    pub reduced : reduce_all (active Schemas.MissionState.created) (map event_of es) ≡ ok s
    pub verified :
        Verified (map reread es) (suc n) (hash_or_genesis (last (map row_of es))) ⊎ Collision sha256

  HashBelow-suc : (n : ℕ) (hs : List Text) → All (HashBelow n) hs → All (HashBelow (suc n)) hs
  HashBelow-suc n [] a = tt
  HashBelow-suc n (h ∷ hs) ((p, e, q, lt), a) = ((p, e, q, omega arith), HashBelow-suc n hs a)

  HashBelow-mem :
      (n : ℕ) (h : Text) (hs : List Text)
      → All (HashBelow n) hs
      → mem_text h hs ≡ true
      → HashBelow n h
  HashBelow-mem n h [] a m = cc
  HashBelow-mem n h (x ∷ hs) (b, a) m = elim (Bool-cases (text_eq h x)) [
    | inl same ↦ subst (HashBelow n) (sym ((text_eq_iff h x).0 same)) b
    | inr differs ↦ HashBelow-mem n h hs a (rw differs at m)
  ]

  -- Two envelopes with different numbers and one hash are a collision.
  Collision-of_seq :
      (p q : Text) (d e : Envelope)
      → event_hash sha256 p d ≡ event_hash sha256 q e
      → d.state_seq ≢ e.state_seq
      → Collision sha256
  unfolding event_hash
  Collision-of_seq p q d e same differs = (
    jcs_dumps (envelope p d),
    jcs_dumps (envelope q e),
    λ texts. differs (
        sym (seq_in-envelope p d)
        ∙ ap seq_in ((jcs_dumps-eq_iff (envelope p d) (envelope q e)).0 texts)
        ∙ seq_in-envelope q e),
    same,
  )

  -- One more linked event passes its round.
  verify_event-linked :
      (n : ℕ) (h : Text) (seen : List Text) (e : EventRecord)
      → e.state_seq ≡ suc n
      → e.previous_event_hash ≡ h
      → e.event_hash ≡ event_hash sha256 h (covered e)
      → mem_text e.event_hash seen ≡ false
      → verify_event sha256
          (record { index = suc n; expected_seq = suc n; prev_hash = h; seen_hashes = seen })
          (reread e)
        ≡ ok (record {
          index = suc (suc n);
          expected_seq = suc (suc n);
          prev_hash = e.event_hash;
          seen_hashes = e.event_hash ∷ seen;
        })
  unfolding verify_event reread
  verify_event-linked n h seen e q p r new =
      rw
        (
          (text_eq_iff e.previous_event_hash h).1 p,
          (text_eq_iff (event_hash sha256 h (covered (reread e))) e.event_hash).1
              (event_hash-reread sha256 h e ∙ sym r),
          new,
        )
        (ground arith)

  -- The first event passes its round.
  verify_event-genesis :
      (e : EventRecord)
      → e.state_seq ≡ 0
      → e.event_type ≡ codes "GENESIS"
      → e.previous_event_hash ≡ genesis_previous_hash
      → e.event_hash ≡ event_hash sha256 genesis_previous_hash (covered e)
      → verify_event sha256 fresh (reread e)
        ≡ ok (record {
          index = 1;
          expected_seq = 1;
          prev_hash = e.event_hash;
          seen_hashes = e.event_hash ∷ [];
        })
  unfolding verify_event reread
  verify_event-genesis e q t p r =
      rw
        (
          (text_eq_iff e.previous_event_hash genesis_previous_hash).1 p,
          (text_eq_iff e.event_type (codes "GENESIS")).1 t,
          (text_eq_iff (event_hash sha256 genesis_previous_hash (covered (reread e)))
                e.event_hash).1
              (event_hash-reread sha256 genesis_previous_hash e ∙ sym r),
        )
        (ground arith)

  pub IsChain-genesis :
      (e : EventRecord)
      → e.state_seq ≡ 0
      → e.event_type ≡ codes "GENESIS"
      → e.previous_event_hash ≡ genesis_previous_hash
      → e.event_hash ≡ event_hash sha256 genesis_previous_hash (covered e)
      → IsChain (e ∷ []) (active Schemas.MissionState.created) 0
  unfolding verify_events reduce_all row_of
  IsChain-genesis e q t p r = record {
    numbered = (q, tt);
    counted = refl;
    reduced = rw t (unfold reduce_state event_of_text in refl);
    verified = inl (
      e.event_hash ∷ [],
      rw (verify_event-genesis e q t p r) refl,
      ((genesis_previous_hash, covered e, r, omega arith), tt),
    );
  }

  -- What the hash of the newest event is compared with.
  abbrev pub head_of : List EventRecord → Text
  head_of es = hash_or_genesis (last (map row_of es))

  head_of-append : (es : List EventRecord) (e : EventRecord) → head_of (es ++ e ∷ []) ≡ e.event_hash
  unfolding row_of
  head_of-append es e =
      rw (map-append row_of es (e ∷ []), last-append (map row_of es) (row_of e)) refl

  Verified-append :
      (es : List EventRecord) (e : EventRecord) (n : ℕ) (h : Text)
      → Verified (map reread es) (suc n) h
      → e.state_seq ≡ suc n
      → e.previous_event_hash ≡ h
      → e.event_hash ≡ event_hash sha256 h (covered e)
      → Verified (map reread (es ++ e ∷ [])) (suc (suc n)) e.event_hash ⊎ Collision sha256
  Verified-append es e n h (seen, passed, below) q p r =
      elim (Bool-cases (mem_text e.event_hash seen)) [
        | inl repeated ↦ inr (collide (HashBelow-mem (suc n) e.event_hash seen below repeated))
        | inr new ↦ inl (
          e.event_hash ∷ seen,
          rw
              (
                map-append reread es (e ∷ []),
                verify_events-append sha256 fresh (map reread es) (reread e),
                passed,
              )
              (verify_event-linked n h seen e q p r new),
          ((h, covered e, r, omega arith), HashBelow-suc (suc n) seen below),
        )
      ]
    where
      collide : HashBelow (suc n) e.event_hash → Collision sha256
      collide (previous, d, same, lt) =
          Collision-of_seq previous h d (covered e) (sym same ∙ r) (omega arith)

  -- A linked event that the reducer accepts extends a chain.
  pub IsChain-append :
      (es : List EventRecord) (e : EventRecord) (s t : State) (n : ℕ)
      → IsChain es s n
      → e.state_seq ≡ suc n
      → e.previous_event_hash ≡ head_of es
      → e.event_hash ≡ event_hash sha256 (head_of es) (covered e)
      → reduce_state s (event_of e) ≡ ok t
      → IsChain (es ++ e ∷ []) t (suc n)
  IsChain-append es e s t n c q p r step = record {
    numbered = NumberedFrom-append 0 es e c.numbered (omega (arith, c.counted));
    counted = omega (arith, length-append {0} es (e ∷ []), c.counted);
    reduced =
        rw
          (
            map-append event_of es (e ∷ []),
            reduce_all-append (active Schemas.MissionState.created) (map event_of es) (event_of e),
            c.reduced,
          )
          step;
    verified = rw (head_of-append es e) (extend c.verified);
  }
    where
      extend :
          Verified (map reread es) (suc n) (head_of es) ⊎ Collision sha256
          → Verified (map reread (es ++ e ∷ [])) (suc (suc n)) e.event_hash ⊎ Collision sha256
      extend (inl v) = Verified-append es e n (head_of es) v q p r
      extend (inr c) = inr c
