-- ===== src/Kafka/Offsets.antt =====
-- communication/event_stream/kafka/consumer_group.py: which offsets are noted, and what ends the loop.
use mathlib.Core.Path.{subst}
use kuva_ai.Prelude.{
  ℕ, suc, ◌≡◌, refl, sym, ◌∙◌, String, Bool, true, false, ◌&&◌, Option, some, List, [], ◌∷◌, eqb,
  arith, ◌==◌, eq_iff, if◌then◌else◌, Bool-cases, inl, inr,
}
use kuva_ai.Dict.{Dict, lookup, lookup-insert}
use kuva_ai.Exec.{Result, ok, err, continue}
use kuva_ai.Kafka.{
  Message, Outcome, processed, invalid, failing, Poll, idle, consumer_error, close_call, polled,
  ConsumerConfig, Outside, Error, Partitions, ConsumerGroup,
}
use kuva_ai.Kafka.Group.{
  set_offset, note_offset, or_empty, commit_offsets, dlq_if, send_to_dlq, retry_loop, retry_if,
  finish, admitted, process_message, full, commit_full, consume,
}
use kuva_ai.Kafka.Commits.{find_offset, noted, commit_offsets-same}

find_offset-set :
    (k v p : ℕ) (d : Partitions)
    → find_offset p (set_offset k v d) ≡ (if eqb k p then some v else find_offset p d)
unfolding set_offset
find_offset-set k v p [] = refl
find_offset-set k v p ((j, w) ∷ d) = ground (arith, find_offset-set k v p d)

abbrev pub is_for : String → ℕ → Message → Bool
is_for t p m = m.topic == t && eqb m.partition p

noted-note :
    (t : String) (p : ℕ) (m : Message) (d : Dict Partitions)
    → noted t p (note_offset m d) ≡ (if is_for t p m then some m.offset else noted t p d)
unfolding noted note_offset
noted-note t p m d =
    let changed =
      lookup-insert m.topic t (set_offset m.partition m.offset (or_empty (lookup m.topic d))) d in
    elim (Bool-cases (m.topic == t)) [
      | inl e ↦
          let same : m.topic ≡ t = ground (arith, eq_iff m.topic t) in
          rw
            (changed, e, find_offset-set m.partition m.offset p (or_empty (lookup m.topic d)), same)
            refl
      | inr e ↦ rw (changed, e) refl
    ]

abbrev pub is_processed : Outcome → Bool
is_processed processed = true
is_processed invalid = false
is_processed failing = false

module _ (out : Outside) (cfg : ConsumerConfig) where
  module _ (t : String) (p : ℕ) where
    -- The offset of the last message of this partition whose first attempt succeeded, of those that come
    -- before a call of `close`; `n` messages have been seen before.
    unfoldable pub last_processed : ℕ → List Poll → Option ℕ → Option ℕ
    last_processed n [] last = last
    last_processed n (idle ∷ ps) last = last_processed n ps last
    last_processed n (consumer_error ∷ ps) last = last_processed n ps last
    last_processed n (close_call ∷ ps) last = last
    last_processed n (polled m ∷ ps) last =
        last_processed (suc n) ps
          (if is_for t p m && is_processed (out.outcome n) then some m.offset else last)

    -- A message was taken, and its offset noted if it was processed.
    pub record Advanced (o : Outcome) (m : Message) (s s1 : ConsumerGroup) : Type 0 where
      pub runs : s1.running ≡ s.running
      pub one_more : s1.seen ≡ suc s.seen
      pub notes :
          noted t p s1.offset_commits
          ≡ (if is_for t p m && is_processed o then some m.offset else noted t p s.offset_commits)

    abbrev pub OnReturn :
        Outcome → Message → ConsumerGroup → Result Error Unit × ConsumerGroup → Type 0
    OnReturn o m s (ok u, s1) = Advanced o m s s1
    OnReturn o m s (err e, s1) = Unit

    not_noted :
        (o : Outcome) (m : Message) (s : ConsumerGroup)
        → is_processed o ≡ false
        → Advanced o m s (record s { seen = suc s.seen })
    not_noted o m s h = record { runs = refl; one_more = refl; notes = rw h (ground arith) }

    dlq-Return :
        (b : Bool) (o : Outcome) (m : Message) (s : ConsumerGroup)
        → is_processed o ≡ false
        → OnReturn o m s (dlq_if out cfg b m (record s { seen = suc s.seen }))
    dlq-Return true o m s h = tt
    dlq-Return false o m s h = not_noted o m s h

    retry_loop-Return :
        (m : Message) (rs : List (Bool × Bool)) (s : ConsumerGroup)
        → OnReturn failing m s (retry_loop out cfg m rs (record s { seen = suc s.seen }))
    unfolding retry_loop send_to_dlq
    retry_loop-Return m [] s = not_noted failing m s refl
    retry_loop-Return m ((true, g) ∷ rs) s = not_noted failing m s refl
    retry_loop-Return m ((false, true) ∷ rs) s = tt
    retry_loop-Return m ((false, false) ∷ rs) s = tt

    retry_if-Return :
        (b : Bool) (m : Message) (rs : List (Bool × Bool)) (s : ConsumerGroup)
        → OnReturn failing m s (retry_if out cfg b m rs (record s { seen = suc s.seen }))
    retry_if-Return true m rs s = retry_loop-Return m rs s
    retry_if-Return false m rs s = not_noted failing m s refl

    finish-Return :
        (o : Outcome) (m : Message) (rs : List (Bool × Bool)) (s : ConsumerGroup)
        → OnReturn o m s (finish out cfg m rs o (record s { seen = suc s.seen }))
    unfolding send_to_dlq
    finish-Return processed m rs s = record {
      runs = refl;
      one_more = refl;
      notes = noted-note t p m s.offset_commits ∙ ground arith;
    }
    finish-Return invalid m rs s = dlq-Return _ invalid m s refl
    finish-Return failing m rs s = retry_if-Return cfg.has_retry_policy m rs s

    admitted-Return :
        (b : Bool) (m : Message) (s : ConsumerGroup)
        → OnReturn
            (out.outcome s.seen)
            m
            s
            (admitted out cfg b s.seen m (record s { seen = suc s.seen }))
    admitted-Return false m s = tt
    admitted-Return true m s = finish-Return (out.outcome s.seen) m (out.retries s.seen) s

    same-Return :
        (o : Outcome) (m : Message) (s s1 : ConsumerGroup) (x : Result Error Unit × ConsumerGroup)
        → x.1 ≡ s1
        → Advanced o m s s1
        → OnReturn o m s x
    same-Return o m s s1 (ok u, s2) e h = subst (Advanced o m s) (sym e) h
    same-Return o m s s1 (err x, s2) e h = tt

    commit_full-Return :
        (b : Bool) (o : Outcome) (m : Message) (s s1 : ConsumerGroup)
        → Advanced o m s s1
        → OnReturn o m s (commit_full out cfg b s1)
    commit_full-Return false o m s s1 h = h
    commit_full-Return true o m s s1 h =
        same-Return o m s s1 (commit_offsets s1) (commit_offsets-same s1) h

    then_commit :
        (o : Outcome) (m : Message) (s : ConsumerGroup) (x : Result Error Unit × ConsumerGroup)
        → OnReturn o m s x
        → OnReturn o m s (continue (λ _ s1. commit_full out cfg (full out cfg s1) s1) x)
    then_commit o m s (ok u, s1) h = commit_full-Return (full out cfg s1) o m s s1 h
    then_commit o m s (err e, s1) h = tt

    pub consume-Return :
        (m : Message) (s : ConsumerGroup)
        → OnReturn (out.outcome s.seen) m s (consume out cfg (polled m) s)
    unfolding consume process_message
    consume-Return m s =
        then_commit (out.outcome s.seen) m s
          (admitted out cfg (out.admits s.seen) s.seen m (record s { seen = suc s.seen }))
          (admitted-Return (out.admits s.seen) m s)
