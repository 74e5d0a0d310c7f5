-- ===== src/Commands/Expiry.antt =====
-- `ExpirySet` of an integer, and what `set` makes of it on the wire.
use glide_for_redis.Common.{
  ◌≡◌, ◌≢◌, ◌↔◌, refl, Bool, false, Option, none, some, String, ◌++◌, arith,
}
use glide_for_redis.Common.Text.{ℤ, pos, is_zero, str}
use glide_for_redis.Exceptions.{returned, raised, value_error}
use glide_for_redis.Commands.Options.{
  ConditionalSet, ExpiryType, sec, millsec, unix_sec, unix_millsec, keep_ttl, Times, ExpiryValue,
  int, ExpirySet, expiry_arg, is_admitted, set_expiry_type_and_value, get_cmd_args,
}
use glide_for_redis.Commands.Core.{conditional_set_args, expiry_args}
use glide_for_redis.Commands.SetGrammar.{
  read_options, read_set, set_args, set_args_lem, get_args, options, IsComplete, valued,
  read_set-set_args,
}

abbrev pub expiry : ExpiryType → Option String → ExpirySet
expiry t v = record { expiry_type = t; cmd_arg = expiry_arg t; value = v }

unread_options :
    (t : ExpiryType) (c : Option ConditionalSet) (flag : Bool)
    → t ≢ keep_ttl
    → read_options (conditional_set_args c ++ (get_args flag ++ expiry_args (some (expiry t none))))
      ≡ none
unfolding read_options get_args get_cmd_args expiry_arg
unread_options keep_ttl c flag h = absurd (h refl)
unread_options t c flag h = ground arith

unread :
    (t : ExpiryType) (key value : String) (c : Option ConditionalSet) (flag : Bool)
    → t ≢ keep_ttl
    → read_set (set_args key value c (some (expiry t none)) flag) ≡ none
unfolding read_set
unread t key value c flag h =
    rw (set_args_lem key value c (some (expiry t none)) flag)
      (rw (unread_options t c flag h, read_set))

module _ (T : Times) where
  -- `ExpirySet(t, v)` raises `ValueError` exactly on a value that its type does not admit.
  pub set_expiry_type_and_value_error :
      (t : ExpiryType) (v : ExpiryValue T)
      → (is_admitted T t v ≡ false) ↔ (set_expiry_type_and_value T t v ≡ raised value_error)
  unfolding set_expiry_type_and_value
  set_expiry_type_and_value_error t v = (λ e. rw e, λ e. ground arith)

  -- Of an integer that is not zero, `ExpirySet` makes one that carries the number's digits.
  pub set_expiry-nonzero :
      (t : ExpiryType) (n : ℤ)
      → t ≢ keep_ttl
      → is_zero n ≡ false
      → (set_expiry_type_and_value T t (int n) ≡ returned (expiry t (some (str n))))
        × IsComplete (expiry t (some (str n)))
  unfolding set_expiry_type_and_value
  set_expiry-nonzero sec n h z = (rw z, valued sec (str n) h)
  set_expiry-nonzero millsec n h z = (rw z, valued millsec (str n) h)
  set_expiry-nonzero unix_sec n h z = (rw z, valued unix_sec (str n) h)
  set_expiry-nonzero unix_millsec n h z = (rw z, valued unix_millsec (str n) h)
  set_expiry-nonzero keep_ttl n h z = absurd (h refl)

  -- For every integer that is not zero, `set` with an `ExpirySet` of it sends arguments from which
  -- the grammar of the command reads back the key, the value, the condition, the flag, and an
  -- expiry of the same type with the number's digits.
  pub read_set-nonzero :
      (t : ExpiryType) (n : ℤ) (key value : String) (c : Option ConditionalSet) (flag : Bool)
      → t ≢ keep_ttl
      → is_zero n ≡ false
      → (e : ExpirySet) × (set_expiry_type_and_value T t (int n) ≡ returned e)
        × (read_set (set_args key value c (some e) flag)
            ≡ some (key, value, options c flag (some (expiry t (some (str n))))))
  read_set-nonzero t n key value c flag h z =
      let (made, complete) = set_expiry-nonzero t n h z in
      let e : ExpirySet = expiry t (some (str n)) in
      (e, made, read_set-set_args key value c (some e) flag complete)

  -- Zero is dropped: `ExpirySet` accepts it for every type that wants a value, and `set` then sends
  -- the keyword of the expiry with nothing behind it, which is a syntax error of the command.
  pub set_expiry_zero :
      (t : ExpiryType) (key value : String) (c : Option ConditionalSet) (flag : Bool)
      → t ≢ keep_ttl
      → (e : ExpirySet) × (set_expiry_type_and_value T t (int (pos 0)) ≡ returned e)
        × (read_set (set_args key value c (some e) flag) ≡ none)
  unfolding set_expiry_type_and_value
  set_expiry_zero sec key value c flag h =
      (expiry sec none, refl, unread sec key value c flag (λ e. cc))
  set_expiry_zero millsec key value c flag h =
      (expiry millsec none, refl, unread millsec key value c flag (λ e. cc))
  set_expiry_zero unix_sec key value c flag h =
      (expiry unix_sec none, refl, unread unix_sec key value c flag (λ e. cc))
  set_expiry_zero unix_millsec key value c flag h =
      (expiry unix_millsec none, refl, unread unix_millsec key value c flag (λ e. cc))
  set_expiry_zero keep_ttl key value c flag h = absurd (h refl)
