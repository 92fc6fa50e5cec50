-- ===== src/Signals/Consumer/Seen.antt =====
-- src/signals/consumer.py: `_seen_ids`, the bounded table of the pairs of an event and a signal id
-- that were seen, oldest first.
pub mod Window
use execution_engine_multi.Prelude.{
  ℕ, String, ◌==◌, Bool, false, ◌&&◌, ◌||◌, Option, none, some, List, [], ◌∷◌, ◌++◌, length, leb,
  if◌then◌else◌,
}

abbrev pub Key : Type 0
Key = String × String

abbrev pub same_key : Key → Key → Bool
same_key (event, id) (event', id') = event == event' && id == id'

-- `dedupe_key in self._seen_ids`
abbrev pub is_seen : Key → List Key → Bool
is_seen k [] = false
is_seen k (j ∷ seen) = same_key j k || is_seen k seen

abbrev pub seen_ids_max : ℕ
seen_ids_max = 10000

-- `popitem(last=False)`
abbrev pop_oldest : List Key → List Key
pop_oldest [] = []
pop_oldest (_ ∷ seen) = seen

-- A new key is entered; at capacity the oldest one goes.
pub enter : ℕ → Key → List Key → List Key
enter limit k seen = (if leb limit (length seen) then pop_oldest seen else seen) ++ k ∷ []

-- The key passes, and the table after it, or `none` for a key that was seen.
pub admit_key : ℕ → Key → List Key → Option (List Key)
unfolding enter
admit_key limit k seen = if is_seen k seen then none else some (enter limit k seen)
