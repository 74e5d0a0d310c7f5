-- ===== src/Client/Slots.antt =====
-- The allocation of callback indexes.
use glide_for_redis.Common.{
  ℕ, ◌+◌, ◌≡◌, refl, none, some, List, [], ◌∷◌, ◌++◌, length, ltb, ◌==◌, if◌then◌else◌, List-cases,
  inl, inr, arith,
}
use glide_for_redis.Client.Callbacks.{
  Future, Dict, dict_get, dict_set, dict_remove, dict_keys, Callbacks, get_future,
  get_callback_index, no_callbacks,
}

-- How often a number stands in a list.
abbrev pub occurrences : ℕ → List ℕ → ℕ
occurrences k [] = 0
occurrences k (x ∷ xs) = (if x == k then 1 else 0) + occurrences k xs

pub occurrences-append :
    (k : ℕ) (xs ys : List ℕ) → occurrences k (xs ++ ys) ≡ occurrences k xs + occurrences k ys
occurrences-append k [] ys = omega arith
occurrences-append k (x ∷ xs) ys = omega (arith, occurrences-append k xs ys)

-- The indexes in use and the free ones are together 0, 1, … up to their number, each once.
pub record Slots {V : Type 0} (c : Callbacks V) : Type 0 where
  pub once :
      (k : ℕ)
      → occurrences k c.available_callback_indexes + occurrences k (dict_keys c.available_futures)
        ≡ (if ltb k (length c.available_callback_indexes + length c.available_futures)
            then 1
            else 0)

pub no_callbacks-Slots : {V : Type 0} → Slots (no_callbacks {V = V})
no_callbacks-Slots = record { once = λ k. ground arith }

pub dict_get-none_of : (k : ℕ) (d : Dict) → occurrences k (dict_keys d) ≡ 0 → dict_get k d ≡ none
unfolding dict_get
dict_get-none_of k [] h = refl
dict_get-none_of k ((i, r) ∷ d) h = ground (arith, dict_get-none_of k d)

occurrences-dict_set :
    (j k r : ℕ) (d : Dict)
    → occurrences k (dict_keys d) ≡ 0
    → occurrences j (dict_keys (dict_set k r d))
      ≡ occurrences j (dict_keys d) + (if k == j then 1 else 0)
unfolding dict_set
occurrences-dict_set j k r [] h = ground arith
occurrences-dict_set j k r ((i, r') ∷ d) h = ground (arith, occurrences-dict_set j k r d)

length-dict_set :
    (k r : ℕ) (d : Dict) → occurrences k (dict_keys d) ≡ 0 → length (dict_set k r d) ≡ length d + 1
unfolding dict_set
length-dict_set k r [] h = omega arith
length-dict_set k r ((i, r') ∷ d) h = ground (arith, length-dict_set k r d)

occurrences-dict_remove :
    (j k r : ℕ) (d : Dict)
    → dict_get k d ≡ some r
    → occurrences j (dict_keys d)
      ≡ occurrences j (dict_keys (dict_remove k d)) + (if k == j then 1 else 0)
unfolding dict_get dict_remove
occurrences-dict_remove j k r [] h = cc
occurrences-dict_remove j k r ((i, r') ∷ d) h = ground (arith, occurrences-dict_remove j k r d)

length-dict_remove :
    (k r : ℕ) (d : Dict) → dict_get k d ≡ some r → length d ≡ length (dict_remove k d) + 1
unfolding dict_get dict_remove
length-dict_remove k r [] h = cc
length-dict_remove k r ((i, r') ∷ d) h = ground (arith, length-dict_remove k r d)

module _ {V : Type 0} where
  -- A new future under an index that is neither free nor in use, nor skips one.
  pub get_future-Slots :
      (i : ℕ) (c : Callbacks V)
      → occurrences i (dict_keys c.available_futures) ≡ 0
      → ((k : ℕ)
          → (if i == k then 1 else 0)
              + (occurrences k c.available_callback_indexes
                  + occurrences k (dict_keys c.available_futures))
            ≡ (if ltb k (length c.available_callback_indexes + length c.available_futures + 1)
                then 1
                else 0))
      → Slots (get_future i c).0
  unfolding get_future
  get_future-Slots i c fresh once = record {
    once = λ k. ground (
      arith,
      once k,
      occurrences-dict_set k i (length c.store) c.available_futures fresh,
      length-dict_set i (length c.store) c.available_futures fresh,
    );
  }

  pub index_new :
      (c : Callbacks V)
      → c.available_callback_indexes ≡ []
      → get_callback_index c ≡ (c, length c.available_futures)
  unfolding get_callback_index
  index_new c e = ground arith

  pub index_free :
      (c : Callbacks V) (i : ℕ) (rest : List ℕ)
      → c.available_callback_indexes ≡ i ∷ rest
      → get_callback_index c ≡ (record c { available_callback_indexes = rest }, i)
  unfolding get_callback_index
  index_free c i rest e = ground arith

  -- The index of a new request is not in use, and taking it keeps the allocation in order.
  pub acquire-Slots :
      (c : Callbacks V)
      → Slots c
      → (occurrences (get_callback_index c).1 (dict_keys (get_callback_index c).0.available_futures)
          ≡ 0)
        × Slots (get_future (get_callback_index c).1 (get_callback_index c).0).0
  acquire-Slots c s = elim (List-cases c.available_callback_indexes) [
    | inl e ↦
        let n : ℕ = length c.available_futures in
        let fresh : occurrences n (dict_keys c.available_futures) ≡ 0 = ground (arith, s.once n) in
        rw (index_new c e) (fresh, get_future-Slots n c fresh (λ k. ground (arith, s.once k)))
    | inr (i, rest, e) ↦
        let taken : Callbacks V = record c { available_callback_indexes = rest } in
        let fresh : occurrences i (dict_keys c.available_futures) ≡ 0 = ground (arith, s.once i) in
        rw (index_free c i rest e)
          (fresh, get_future-Slots i taken fresh (λ k. ground (arith, s.once k)))
  ]

  -- An index that comes back is free again, and the allocation stays in order.
  pub release-Slots :
      (c : Callbacks V) (i ref : ℕ) (store : List (Future V))
      → Slots c
      → dict_get i c.available_futures ≡ some ref
      → Slots (record c {
        available_futures = dict_remove i c.available_futures;
        available_callback_indexes = i ∷ c.available_callback_indexes;
        store = store;
      })
  release-Slots c i ref store s h = record {
    once = λ k. ground (
      arith,
      s.once k,
      occurrences-dict_remove k i ref c.available_futures h,
      length-dict_remove i ref c.available_futures h,
    );
  }

  -- What happens to the futures does not matter for the indexes.
  pub store-Slots :
      (c : Callbacks V) (store : List (Future V)) → Slots c → Slots (record c { store = store })
  store-Slots c store s = record { once = s.once }
