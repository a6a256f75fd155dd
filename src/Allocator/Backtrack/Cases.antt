-- ===== src/Allocator/Backtrack/Cases.antt =====
-- The three ways through `search` above a leaf.
use k8s_device_plugin.Prelude.{
  ℕ, suc, ◌-◌, ◌≤◌, ◌<◌, true, false, ◌≡◌, inl, inr, arith, length, Bool-cases, ltb,
}
use k8s_device_plugin.Allocator.Search.{Setup, State}
use k8s_device_plugin.Allocator.Backtrack.{is_pruned, try_each, search}

module _ (setup : Setup) (start remaining : ℕ) (s : State) where
  abbrev pub rounds : ℕ
  rounds = length setup.candidates - remaining - start

  abbrev pub tried : State
  tried = try_each setup (λ i. search setup i remaining) rounds start s

  pub search_cases {ℓ} :
      (Q : State → Type ℓ)
      → (length setup.candidates - start < suc remaining → Q s)
      → (is_pruned setup s start (suc remaining) ≡ true → Q s)
      → (suc remaining ≤ length setup.candidates - start
          → is_pruned setup s start (suc remaining) ≡ false
          → Q tried)
      → Q (search setup start (suc remaining) s)
  unfolding search
  search_cases Q short cut walked =
      elim (Bool-cases (ltb (length setup.candidates - start) (suc remaining))) [
        | inl few ↦ rw few (short (ground arith))
        | inr enough ↦ rw enough (elim (Bool-cases (is_pruned setup s start (suc remaining))) [
          | inl pruned ↦ rw pruned (cut pruned)
          | inr kept ↦ rw kept (walked (ground arith) kept)
        ])
      ]
