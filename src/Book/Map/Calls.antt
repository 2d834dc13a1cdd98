-- ===== src/Book/Map/Calls.antt =====
-- The calls of src/orderbook/order_map.cpp as data, for the hash map and for a finite map.
use itch_feed_handler.Common.{
  ℕ, suc, ◌≢◌, Option, none, some, Bool, true, false, ◌>>=◌, List, [], ◌∷◌, ◌==◌, if◌then◌else◌,
}
use itch_feed_handler.Book.Map.{OrderMap, find, insert, erase, map_empty}

pub data Call : Type 0 where
  insert_call : ℕ → ℕ → Call
  find_call erase_call : ℕ → Call

-- What a call returns.
pub data Reply : Type 0 where
  inserted : Reply
  found : ℕ → Reply
  erased : Bool → Reply

abbrev pub call : OrderMap → Call → Option (OrderMap × Reply)
call m (insert_call id v) = insert m id v >>= λ m'. some (m', inserted)
call m (find_call id) = find m id >>= λ v. some (m, found v)
call m (erase_call id) = erase m id >>= λ r. some (r.0, erased r.1)

abbrev pub run : OrderMap → List Call → Option (List Reply)
run m [] = some []
run m (x ∷ calls) = call m x >>= λ r. run r.0 calls >>= λ replies. some (r.1 ∷ replies)

-- The finite map: the value of a key, if it has one.
abbrev pub is_some : Option ℕ → Bool
is_some none = false
is_some (some v) = true

abbrev pub value_or_empty : Option ℕ → ℕ
value_or_empty none = map_empty
value_or_empty (some v) = v

abbrev pub set : (ℕ → Option ℕ) → ℕ → Option ℕ → ℕ → Option ℕ
set f id v k = if k == id then v else f k

abbrev pub call_map : (ℕ → Option ℕ) → Call → (ℕ → Option ℕ) × Reply
call_map f (insert_call id v) = (set f id (some v), inserted)
call_map f (find_call id) = (f, found (value_or_empty (f id)))
call_map f (erase_call id) = (set f id none, erased (is_some (f id)))

abbrev pub run_map : (ℕ → Option ℕ) → List Call → List Reply
run_map f [] = []
run_map f (x ∷ calls) = let (f', reply) = call_map f x in reply ∷ run_map f' calls

-- The key of a call, and the keys that a history inserts.
abbrev pub key_of : Call → ℕ
key_of (insert_call id v) = id
key_of (find_call id) = id
key_of (erase_call id) = id

abbrev pub AreKeys : List Call → Type 0
AreKeys [] = Unit
AreKeys (x ∷ calls) = (key_of x ≢ 0) × AreKeys calls

abbrev pub insertions : List Call → ℕ
insertions [] = 0
insertions (insert_call id v ∷ calls) = suc (insertions calls)
insertions (x ∷ calls) = insertions calls
