-- ===== src/Stream/Cuts.antt =====
-- A stream of encoded messages that is cut at any byte.
use glide_for_redis.Common.{
  ℕ, ◌≡◌, refl, sym, ap, ◌∙◌, ◌⊎◌, inl, inr, Option, List, [], ◌∷◌, ◌++◌, append_assoc, All,
}
use glide_for_redis.Codec.Delimited.{frame}
use glide_for_redis.Stream.Frames.{frames, IsSendable, IsPartial, nothing, front_of}

-- Two ways to cut a list: the first piece of one is the front of the first piece of the other.
two_cuts {ℓ} :
    {A : Type ℓ} (a b xs ys : List A)
    → a ++ b ≡ xs ++ ys
    → ((z : List A) × (xs ≡ a ++ z) × (b ≡ z ++ ys))
      ⊎ ((x : A) × (z : List A) × (a ≡ xs ++ x ∷ z) × (ys ≡ (x ∷ z) ++ b))
two_cuts [] b xs ys e = inl (xs, refl, e)
two_cuts (c ∷ a) b [] ys e = inr (c, a, refl, sym e)
two_cuts (c ∷ a) b (x ∷ xs) ys e = elim (two_cuts a b xs ys cc) [
  | inl (z, f, g) ↦ inl (z, cc (e, f), g)
  | inr (y, z, f, g) ↦ inr (y, z, cc (e, f), g)
]

module _ {M : Type 0} (parse : List ℕ → Option M) (serialize : M → List ℕ) where
  -- The messages that are complete before the cut, the bytes behind them, and the other messages.
  pub record Cut (ms : List M) (xs ys : List ℕ) : Type 0 where
    pub here : List M
    pub there : List M
    pub left : List ℕ
    pub messages : ms ≡ here ++ there
    pub before : xs ≡ frames parse serialize here ++ left
    pub after : left ++ ys ≡ frames parse serialize there
    pub partial : IsPartial parse serialize left

  pub frames-Cut :
      (ms : List M) (xs ys : List ℕ)
      → All (IsSendable parse serialize) ms
      → frames parse serialize ms ≡ xs ++ ys
      → Cut ms xs ys
  frames-Cut [] [] ys h e = record {
    here = [];
    there = [];
    left = [];
    messages = refl;
    before = refl;
    after = sym e;
    partial = nothing refl;
  }
  frames-Cut [] (x ∷ xs) ys h e = cc
  frames-Cut (m ∷ ms) xs ys (h, hs) e =
      elim (two_cuts (frame parse serialize m) (frames parse serialize ms) xs ys e) [
        | inl (z, f, g) ↦
            let rest = frames-Cut ms z ys hs g in
            record {
              here = m ∷ rest.here;
              there = rest.there;
              left = rest.left;
              messages = ap (◌∷◌ m) rest.messages;
              before =
                  f
                  ∙ ap (◌++◌ (frame parse serialize m)) rest.before
                  ∙ sym (append_assoc (frame parse serialize m) _ rest.left);
              after = rest.after;
              partial = rest.partial;
            }
        | inr (x, z, f, g) ↦ record {
          here = [];
          there = m ∷ ms;
          left = xs;
          messages = refl;
          before = refl;
          after = sym e;
          partial = front_of m x z h f;
        }
      ]
