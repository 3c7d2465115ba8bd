-- ===== src/Kernel/Chunks.antt =====
-- "Chunk boundaries have no trading meaning" (the docstring of `simulate_kernel`).
use arkana.Base.{
  ◌≡◌, refl, sym, ap, ◌∙◌, List, [], ◌∷◌, ◌++◌, Result, ok, ◌>>=◌, >>=_assoc, >>=-congr, Number,
}
use arkana.Market.{Bar}
use arkana.Kernel.{
  Callbacks, Config, State, step, over_chunk, over_chunks, close_open, simulate_kernel, start,
}

abbrev pub concat : {A : Type 0} → List (List A) → List A
concat [] = []
concat (xs ∷ rest) = xs ++ concat rest

module _ {A : Type 0} ⦃n : Number A⦄ {D : Type 0} (cb : Callbacks A D) (c : Config A) where
  pub over_chunk-append :
      (xs ys : List (Bar A)) (s : State A D)
      → over_chunk cb c (xs ++ ys) s ≡ (over_chunk cb c xs s >>= over_chunk cb c ys)
  unfolding over_chunk
  over_chunk-append [] ys s = refl
  over_chunk-append (x ∷ xs) ys s =
      >>=-congr (step cb c s x) _ _ (λ s'. over_chunk-append xs ys s')
      ∙ sym (>>=_assoc (step cb c s x) _ _)

  pub over_chunks-eq-over_chunk :
      (chunks : List (List (Bar A))) (s : State A D)
      → over_chunks cb c chunks s ≡ over_chunk cb c (concat chunks) s
  unfolding over_chunks over_chunk
  over_chunks-eq-over_chunk [] s = refl
  over_chunks-eq-over_chunk (xs ∷ rest) s =
      >>=-congr (over_chunk cb c xs s) _ _ (λ s'. over_chunks-eq-over_chunk rest s')
      ∙ sym (over_chunk-append xs (concat rest) s)

  -- Two ways to cut the same bars into chunks give the same result: the same environment after all
  -- callbacks and the same ledger, or the same error.
  pub simulate_kernel-rechunk :
      (chunks others : List (List (Bar A))) (d : D)
      → concat chunks ≡ concat others
      → simulate_kernel cb c chunks d ≡ simulate_kernel cb c others d
  unfolding simulate_kernel
  simulate_kernel-rechunk chunks others d same =
      ap
        (λ (r : Result (State A D)).
          r >>= λ s. close_open cb c s s.active s.signal >>= λ s'. ok (s'.env, s'.trades))
        (over_chunks-eq-over_chunk chunks (start cb c d)
          ∙ ap (λ bars. over_chunk cb c bars (start cb c d)) same
          ∙ sym (over_chunks-eq-over_chunk others (start cb c d)))
