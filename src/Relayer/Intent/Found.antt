-- ===== src/Relayer/Intent/Found.antt =====
-- agents/relayer/src/apps/intent/instruction.ts, `findInstruction`: which log it finds.
use whm.Prelude.{ℕ}
use whm.Prelude.{◌≡◌, refl, ap, ◌∙◌, ◌≢◌, ◌⊎◌, inl, inr}
use whm.Prelude.{true, Option, none, some}
use whm.Prelude.{List, [], ◌∷◌}
use whm.Prelude.{◌==◌, if◌then◌else◌, ==_iff, if_elim}
use whm.Prelude.{All, In}
use mathlib.Core.Path.{subst}
use whm.Prelude.Text.{Bytes}
use whm.Relayer.Revert.{Text}
use whm.Relayer.Intent.{
  Log, Published, Instructed, Instruction, is_ours, matching, decoded, find_in,
}

module _ (selector emitter_topic : Text) (decode_event_log : Log → Option Published)
    (decode_payload : Bytes → Option Instructed) where
  -- A log of the emitter that instructs about the sequence, and what it says.
  pub record Names (sequence : ℕ) (order : Instruction) (l : Log) : Type 0 where
    pub ours : is_ours selector emitter_topic decode_event_log decode_payload l ≡ true
    pub published : Published
    pub event : decode_event_log l ≡ some published
    pub instructed : Instructed
    pub payload : decode_payload published.payload ≡ some instructed
    pub about : instructed.manager_sequence ≡ sequence
    pub which : order.message_sequence ≡ published.sequence
    pub ceiling : order.max_relay_fee ≡ instructed.max_relay_fee

  pub record FoundIn (sequence : ℕ) (order : Instruction) (logs : List Log) : Type 0 where
    pub log : Log
    pub there : In log logs
    pub names : Names sequence order log

  -- No log of the emitter instructs about the sequence.
  pub record Silent (sequence : ℕ) (l : Log) : Type 0 where
    pub silent :
        is_ours selector emitter_topic decode_event_log decode_payload l ≡ true
        → (p : Published) → decode_event_log l ≡ some p
        → (i : Instructed) → decode_payload p.payload ≡ some i
        → i.manager_sequence ≢ sequence

  -- What the loop makes of its first log that is the emitter's.
  data Step (sequence : ℕ) (l : Log) (rest : Option (Option Instruction))
      : Option (Option Instruction) → Type 0 where
    hit : (order : Instruction) → Names sequence order l → Step sequence l rest (some (some order))
    miss : Silent sequence l → Step sequence l rest rest
    fault : Step sequence l rest none

  matching-Step :
      (sequence : ℕ) (l : Log) (p : Published) (o : Option Instructed)
      (rest : Option (Option Instruction))
      → is_ours selector emitter_topic decode_event_log decode_payload l ≡ true
      → decode_event_log l ≡ some p
      → decode_payload p.payload ≡ o
      → Step sequence l rest
          (matching selector emitter_topic decode_event_log decode_payload sequence p o rest)
  unfolding matching
  matching-Step sequence l p none rest ours event payload = fault
  matching-Step sequence l p (some i) rest ours event payload =
      if_elim (Step sequence l rest) (i.manager_sequence == sequence) _ rest
        (λ same. hit _ (record {
          ours = ours;
          published = p;
          event = event;
          instructed = i;
          payload = payload;
          about = (==_iff i.manager_sequence sequence).0 same;
          which = refl;
          ceiling = refl;
        }))
        (λ other. miss (record {
          silent = λ _ q e j f about.
              let same_p : p ≡ q = cc in
              let same_i : i ≡ j = cc in
              let equal : i.manager_sequence ≡ sequence =
                ap (λ (k : Instructed). k.manager_sequence) same_i ∙ about in
              let yes_same = (==_iff i.manager_sequence sequence).1 equal in cc;
        }))

  decoded-Step :
      (sequence : ℕ) (l : Log) (o : Option Published) (rest : Option (Option Instruction))
      → is_ours selector emitter_topic decode_event_log decode_payload l ≡ true
      → decode_event_log l ≡ o
      → Step sequence l rest
          (decoded selector emitter_topic decode_event_log decode_payload sequence o rest)
  unfolding decoded
  decoded-Step sequence l none rest ours event = fault
  decoded-Step sequence l (some p) rest ours event =
      matching-Step sequence l p (decode_payload p.payload) rest ours event refl

  log-Step :
      (sequence : ℕ) (l : Log) (rest : Option (Option Instruction))
      → Step sequence l rest (
          if is_ours selector emitter_topic decode_event_log decode_payload l
          then decoded selector emitter_topic decode_event_log decode_payload sequence
              (decode_event_log l)
              rest
          else rest)
  log-Step sequence l rest =
      if_elim (Step sequence l rest)
        (is_ours selector emitter_topic decode_event_log decode_payload l) _ rest
        (λ ours. decoded-Step sequence l (decode_event_log l) rest ours refl)
        (λ foreign. miss (record { silent = λ ours. cc }))

  Step-Names :
      (sequence : ℕ) (l : Log) (rest : Option (Option Instruction)) (order : Instruction)
      {r : Option (Option Instruction)}
      → Step sequence l rest r
      → r ≡ some (some order)
      → Names sequence order l ⊎ (rest ≡ some (some order))
  Step-Names sequence l rest order (hit found names) h =
      let same : found ≡ order = cc in
      inl (subst (λ (o : Instruction). Names sequence o l) same names)
  Step-Names sequence l rest order (miss quiet) h = inr h
  Step-Names sequence l rest order fault h = cc

  Step-Silent :
      (sequence : ℕ) (l : Log) (rest : Option (Option Instruction))
      {r : Option (Option Instruction)}
      → Step sequence l rest r
      → r ≡ some none
      → Silent sequence l × (rest ≡ some none)
  Step-Silent sequence l rest (hit found names) h = cc
  Step-Silent sequence l rest (miss quiet) h = (quiet, h)
  Step-Silent sequence l rest fault h = cc

  pub find_in-FoundIn :
      (sequence : ℕ) (order : Instruction) (logs : List Log)
      → find_in selector emitter_topic decode_event_log decode_payload sequence logs
        ≡ some (some order)
      → FoundIn sequence order logs
  unfolding find_in
  find_in-FoundIn sequence order [] h = cc
  find_in-FoundIn sequence order (l ∷ ls) h =
      let rest = find_in selector emitter_topic decode_event_log decode_payload sequence ls in
      elim (Step-Names sequence l rest order (log-Step sequence l rest) h) [
        | inl names ↦ record { log = l; there = inl refl; names = names }
        | inr later ↦
            let found = find_in-FoundIn sequence order ls later in
            record { log = found.log; there = inr found.there; names = found.names }
      ]

  pub find_in-Silent :
      (sequence : ℕ) (logs : List Log)
      → find_in selector emitter_topic decode_event_log decode_payload sequence logs ≡ some none
      → All (Silent sequence) logs
  unfolding find_in
  find_in-Silent sequence [] h = tt
  find_in-Silent sequence (l ∷ ls) h =
      let rest = find_in selector emitter_topic decode_event_log decode_payload sequence ls in
      let (quiet, later) = Step-Silent sequence l rest (log-Step sequence l rest) h in
      (quiet, find_in-Silent sequence ls later)
