-- ===== src/Relayer/Revert.antt =====
-- agents/relayer/src/engine/revert.ts: what the name of a revert says of the work. Names are lists of
-- character codes.
use whm.Prelude.{ℕ}
use whm.Prelude.{Bool, true, false, ◌&&◌, ◌||◌, Option, none, some}
use whm.Prelude.{List, [], ◌∷◌}
use whm.Prelude.{◌==◌, if◌then◌else◌}
use whm.Prelude.Text.{codes, bytes_eq}

abbrev pub Text : Type 0
Text = List ℕ

abbrev pub done_errors : List Text
done_errors =
    codes "AlreadyRedeemed"
    ∷ codes "TransferAlreadyCompleted"
    ∷ codes "StalePriceUpdate"
    ∷ codes "MessageAlreadyProcessed"
    ∷ []

abbrev pub done_reasons : List Text
done_reasons =
    codes "transfer already completed"
    ∷ codes "already been redeemed"
    ∷ codes "VAA already processed"
    ∷ []

abbrev pub dead_reasons : List Text
dead_reasons =
    codes "Price too stale"
    ∷ codes "Price too low to scale"
    ∷ codes "OracleNotSet"
    ∷ codes "PriceDeviationTooLarge"
    ∷ []

-- `ContractFunctionRevertedError`: the decoded custom error's name, and the require string.
pub record Reverted : Type 0 where
  pub error_name : Option Text
  pub reason : Option Text

-- What a call throws: an error of viem's, with the revert that `walk` finds in it if there is one,
-- or any other. Each has a message.
pub data Thrown : Type 0 where
  base : Option Reverted → Text → Thrown
  other : Text → Thrown

abbrev pub message_of : Thrown → Text
message_of (base r m) = m
message_of (other m) = m

-- `name && name !== "Error" ? name : revert.reason`
unfoldable pub name_or_reason : Option Text → Option Text → Option Text
name_or_reason none reason = reason
name_or_reason (some []) reason = reason
name_or_reason (some (c ∷ cs)) reason =
    if bytes_eq (c ∷ cs) (codes "Error") then reason else some (c ∷ cs)

unfoldable pub revert_name : Thrown → Option Text
revert_name (other m) = none
revert_name (base none m) = none
revert_name (base (some r) m) = name_or_reason r.error_name r.reason

-- `starts_with` and `includes` of a text.
unfoldable pub starts_with : Text → Text → Bool
starts_with s [] = true
starts_with [] (p ∷ ps) = false
starts_with (c ∷ s) (p ∷ ps) = c == p && starts_with s ps

unfoldable pub includes : Text → Text → Bool
includes [] p = starts_with [] p
includes (c ∷ s) p = starts_with (c ∷ s) p || includes s p

-- `Set.has`, and `some` over fragments.
unfoldable pub has : List Text → Text → Bool
has [] n = false
has (x ∷ xs) n = bytes_eq x n || has xs n

unfoldable pub some_fragment : List Text → Text → Bool
some_fragment [] n = false
some_fragment (r ∷ rs) n = includes n r || some_fragment rs n

-- An empty name counts as no name.
unfoldable pub is_done : Option Text → Bool
is_done none = false
is_done (some []) = false
is_done (some (c ∷ n)) = has done_errors (c ∷ n) || some_fragment done_reasons (c ∷ n)

unfoldable pub is_dead : Option Text → Bool
is_dead none = false
is_dead (some []) = false
is_dead (some (c ∷ n)) = some_fragment dead_reasons (c ∷ n)
