-- ===== src/Observer/View.antt =====
-- tools/client/observer.ts: `compareLogs` and the sorted `logs` of the observer.
use challenge_escrow_protoco.Prelude.{◌≤◌, ◌==◌, ◌≡◌, Bool, List, [], ◌∷◌, ltb, if◌then◌else◌}
use mathlib.Core.List.{Perm}
use mathlib.Core.List.Perm
use challenge_escrow_protoco.Observer.Types.{Log, Observer}
use challenge_escrow_protoco.Observer.Logs.{copy_log}
use challenge_escrow_protoco.Observer.Anchors.{AllLogs}

-- `compareLogs(left, right) < 0`
unfoldable pub precedes : Log → Log → Bool
precedes left right =
    if left.block_number == right.block_number
    then (if left.transaction_index == right.transaction_index
        then ltb left.log_index right.log_index
        else ltb left.transaction_index right.transaction_index)
    else ltb left.block_number right.block_number

-- `sort(compareLogs)`, which is stable
unfoldable pub insert_sorted : Log → List Log → List Log
insert_sorted x [] = x ∷ []
insert_sorted x (y ∷ ys) = if precedes y x then y ∷ insert_sorted x ys else x ∷ y ∷ ys

unfoldable pub sort_logs : List Log → List Log
sort_logs [] = []
sort_logs (x ∷ xs) = insert_sorted x (sort_logs xs)

abbrev copied : List Log → List Log
copied [] = []
copied (x ∷ xs) = copy_log x ∷ copied xs

-- `logs`
unfoldable pub observed_logs : Observer → List Log
observed_logs o = copied (sort_logs o.logs)

-- The order of logs on a chain: by block, then by transaction, then by log.
unfoldable pub Before : Log → Log → Type 0
Before x y =
    (x.block_number ≤ y.block_number)
    × (x.block_number ≡ y.block_number → x.transaction_index ≤ y.transaction_index)
    × (x.block_number ≡ y.block_number
        → x.transaction_index ≡ y.transaction_index
        → x.log_index ≤ y.log_index)

-- Every log is before those that follow it.
abbrev pub AreSorted : List Log → Type 0
AreSorted [] = Unit
AreSorted (x ∷ xs) = AllLogs (Before x) xs × AreSorted xs
