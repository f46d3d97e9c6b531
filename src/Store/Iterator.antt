-- ===== src/Store/Iterator.antt =====
-- StdIterator, and the iterators of the store and of a transaction.
use marblerun.Base.{
  Bool, Bytes, List, Map, Result, Str, [], deadlock, drop, err, errorf, has_prefix, if◌then◌else◌,
  length, ltb, ok, panic, suc, zero, ℕ, ◌+◌, ◌∷◌,
}
use marblerun.Store.{StdStore, Transaction}

pub record StdIterator : Type 0 where
  pub idx : ℕ
  pub found : List Str

-- the loop over the keys in StdStore.Iterator and transaction.Iterator
unfoldable pub with_prefix : Str → Map Bytes → List Str
with_prefix prefix [] = []
with_prefix prefix ((k, v) ∷ m) =
    let rest = with_prefix prefix m in if has_prefix prefix k then k ∷ rest else rest

-- StdStore.Iterator
unfoldable pub store_iterator : StdStore → Str → StdIterator
unfolding with_prefix
store_iterator s prefix = record { idx = 0; found = with_prefix prefix s.data_map }

-- transaction.Iterator
unfoldable pub tx_iterator : Transaction → Str → StdIterator
unfolding with_prefix
tx_iterator t prefix = record { idx = 0; found = with_prefix prefix t.tx_data }

-- i.idx < len(i.keys)
unfoldable pub has_next : StdIterator → Bool
has_next i = ltb i.idx (length i.found)

-- keys[idx], read from the rest of the list
next_key : StdIterator → List Str → Result Str × StdIterator
next_key i [] = (err (errorf "index out of range [%d] with length %d" []), i)
next_key i (k ∷ ks) = (ok k, record i { idx = i.idx + 1 })

-- StdIterator.GetNext
unfoldable pub get_next : StdIterator → Result Str × StdIterator
unfolding next_key
get_next i = next_key i (drop i.idx i.found)

-- one round of the loop below
collect : Result Str → Result (List Str) → Result (List Str)
collect (ok k) (ok ks) = ok (k ∷ ks)
collect (ok k) r = r
collect (err e) r = err e
collect (panic m) r = panic m
collect deadlock r = deadlock

-- `for iter.HasNext() { k, err := iter.GetNext() … }`, on fuel: the keys in order
unfoldable pub drain : ℕ → StdIterator → Result (List Str)
unfolding has_next get_next collect
drain zero i = if has_next i then deadlock else ok []
drain (suc fuel) i =
    let (r, i') = get_next i in
    let rest = drain fuel i' in if has_next i then collect r rest else ok []
