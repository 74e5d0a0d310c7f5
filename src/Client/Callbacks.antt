-- ===== src/Client/Callbacks.antt =====
-- The pending requests of `BaseRedisClient`: `_available_futures`, `_available_callback_indexes`
-- and the futures themselves. A future is an object that the client and the task awaiting it share,
-- so the dictionary holds its place in `store`, which lists every future in the order of creation.
use glide_for_redis.Common.{
  ℕ, Bool, true, false, Option, none, some, List, [], ◌∷◌, ◌++◌, length, get_elem?, set, ◌==◌,
  if◌then◌else◌,
}
use glide_for_redis.Exceptions.{PyException, invalid_state, Outcome, returned, raised}

-- `asyncio.Future`. `cancelled` is what a cancelled awaiting task leaves behind.
pub data Future (V : Type 0) : Type 0 where
  pending : Future V
  result : V → Future V
  failed : PyException → Future V
  cancelled : Future V

-- A dictionary from callback indexes to places in the store.
abbrev pub Dict : Type 0
Dict = List (ℕ × ℕ)

unfoldable pub dict_get : ℕ → Dict → Option ℕ
dict_get k [] = none
dict_get k ((i, ref) ∷ d) = if i == k then some ref else dict_get k d

-- `d.update({k: ref})`
unfoldable pub dict_set : ℕ → ℕ → Dict → Dict
dict_set k ref [] = (k, ref) ∷ []
dict_set k ref ((i, r) ∷ d) = if i == k then (i, ref) ∷ d else (i, r) ∷ dict_set k ref d

-- What `d.pop(k, None)` leaves.
unfoldable pub dict_remove : ℕ → Dict → Dict
dict_remove k [] = []
dict_remove k ((i, r) ∷ d) = if i == k then d else (i, r) ∷ dict_remove k d

abbrev pub dict_keys : Dict → List ℕ
dict_keys [] = []
dict_keys ((i, r) ∷ d) = i ∷ dict_keys d

abbrev pub dict_values : Dict → List ℕ
dict_values [] = []
dict_values ((i, r) ∷ d) = r ∷ dict_values d

-- The head of `available_callback_indexes` is the end of the Python list, where it is popped.
pub record Callbacks (V : Type 0) : Type 0 where
  pub available_futures : Dict
  pub available_callback_indexes : List ℕ
  pub store : List (Future V)

module _ {V : Type 0} where
  abbrev pub no_callbacks : Callbacks V
  no_callbacks = record { available_futures = []; available_callback_indexes = []; store = [] }

  -- `_get_future`: a new future under the index. It returns the future's place.
  unfoldable pub get_future : ℕ → Callbacks V → Callbacks V × ℕ
  unfolding dict_set
  get_future callback_idx self =
      let ref = length self.store in
      (
        record self {
          available_futures = dict_set callback_idx ref self.available_futures;
          store = self.store ++ pending ∷ [];
        },
        ref,
      )

  -- `_get_callback_index`: a free index is taken off its list; if there is none, the number of
  -- futures is the index.
  unfoldable pub get_callback_index : Callbacks V → Callbacks V × ℕ
  get_callback_index self = elim self.available_callback_indexes [
    | [] ↦ (self, length self.available_futures)
    | i ∷ rest ↦ (record self { available_callback_indexes = rest }, i)
  ]

  -- Whether a future can still be given a result; `done()` says the opposite.
  abbrev pub is_pending : List (Future V) → ℕ → Bool
  is_pending store ref = elim (get_elem? store ref) [ some pending ↦ true | _ ↦ false ]

  -- `set_result` and `set_exception` raise `InvalidStateError` on a future that is done.
  unfoldable pub set_future : ℕ → Future V → List (Future V) → Outcome (List (Future V))
  set_future ref f store =
      if is_pending store ref then returned (set store ref f) else raised invalid_state

  -- What cancelling the task that awaits a future does to the future.
  unfoldable pub cancel : ℕ → Callbacks V → Callbacks V
  cancel ref self =
      if is_pending self.store ref
      then record self { store = set self.store ref cancelled }
      else self

  -- The loop of `close`: every future in the dictionary that is not done fails with the error.
  unfoldable pub fail_pending : PyException → List ℕ → List (Future V) → List (Future V)
  fail_pending e [] store = store
  fail_pending e (ref ∷ refs) store =
      fail_pending e refs (if is_pending store ref then set store ref (failed e) else store)
