-- ===== src/Bytecode/Compiler/Invariant/Blocks.antt =====
-- src/kernel-bytecode/compiler.ts: what the operations on blocks keep.
use mathlib.Core.Path.{subst}
use semantic_systems.Base.{
  ℕ, zero, suc, ◌+◌, ◌<◌, ◌≡◌, refl, sym, ◌∙◌, ◌≢◌, ◌⊎◌, inl, inr, List, [], ◌∷◌, ◌++◌, some, arith,
  leb, length, get_elem?, Bool-cases, Option-cases, some-injective, none-some, length-pushed,
  get_elem?-cases, All-append, All-map,
}
use semantic_systems.Bytecode.Instruction.{Instruction, KernelBytecodeBounds}
use semantic_systems.Bytecode.Graph.{IsClosed, Resolves, instruction_total, IsClosed-snoc}
use semantic_systems.Bytecode.Compiler.{Builder, Build, push_at, new_block, emit, closed_block}
use semantic_systems.Bytecode.Compiler.Invariant.{
  Keeps, Kept, Builds, Grows, Resolves-Grows, Fine, pure-Keeps, ◌⟫◌,
}

-- What an `emit` to an open block leaves.
length-push_at :
    (blocks : List (List Instruction)) (n : ℕ) (i : Instruction)
    → length (push_at blocks n i) ≡ length blocks
unfolding push_at
length-push_at [] n i = refl
length-push_at (block ∷ blocks) zero i = refl
length-push_at (block ∷ blocks) (suc n) i = omega (arith, length-push_at blocks n i)

-- A block after an `emit` is the one that was pushed to, or as it was.
push_at-cases :
    (blocks : List (List Instruction)) (n : ℕ) (i : Instruction) (m : ℕ) (is : List Instruction)
    → get_elem? (push_at blocks n i) m ≡ some is
    → ((m ≡ n)
        × ((old : List Instruction) × ((get_elem? blocks m ≡ some old) × (is ≡ (old ++ i ∷ [])))))
      ⊎ ((m ≢ n) × (get_elem? blocks m ≡ some is))
unfolding push_at
push_at-cases [] n i m is e = absurd (none-some e)
push_at-cases (block ∷ blocks) zero i zero is e =
    inl (refl, (block, (refl, sym (some-injective e))))
push_at-cases (block ∷ blocks) zero i (suc m) is e = inr (λ same. omega arith, e)
push_at-cases (block ∷ blocks) (suc n) i zero is e = inr (λ same. omega arith, e)
push_at-cases (block ∷ blocks) (suc n) i (suc m) is e = elim (push_at-cases blocks n i m is e) [
  | inl (same, pushed) ↦ inl (omega arith, pushed)
  | inr (other, old) ↦ inr (λ same. other (omega arith), old)
]

push_at-total :
    (blocks : List (List Instruction)) (n : ℕ) (i : Instruction) (old : List Instruction)
    → get_elem? blocks n ≡ some old
    → instruction_total (push_at blocks n i) ≡ instruction_total blocks + 1
unfolding push_at
push_at-total [] n i old e = absurd (none-some e)
push_at-total (block ∷ blocks) zero i old e = omega (arith, length-pushed block i)
push_at-total (block ∷ blocks) (suc n) i old e = omega (arith, push_at-total blocks n i old e)

total-pushed :
    (blocks : List (List Instruction))
    → instruction_total (blocks ++ [] ∷ []) ≡ instruction_total blocks
total-pushed [] = refl
total-pushed (block ∷ blocks) = omega (arith, total-pushed blocks)

-- One block more is open.
abbrev pub AndOpen : ℕ → (ℕ → Type 0) → ℕ → Type 0
AndOpen block is_open n = (n ≡ block) ⊎ is_open n

module _ (bounds : KernelBytecodeBounds) (is_open : ℕ → Type 0) (b : Builder)
    (h : Builds bounds is_open b) where
  -- An `emit` after which the blocks of `is_open'` are open.
  emit-opens :
      (is_open' : ℕ → Type 0) (block : ℕ) (i : Instruction)
      → Resolves (length b.blocks) b.constants i
      → ((old : List Instruction) → is_open' block ⊎ IsClosed (old ++ i ∷ []))
      → ((n : ℕ) → n ≢ block → is_open n → is_open' n)
      → Keeps bounds is_open' Fine b (emit bounds block i)
  unfolding emit
  emit-opens is_open' block i resolves at_block elsewhere =
      Keeps.keeps (elim (Bool-cases (leb bounds.maximum_instructions b.instruction_count)) [
        | inl full ↦ rw full Kept.stops
        | inr room ↦ elim (Option-cases (get_elem? b.blocks block)) [
          | inl out ↦ rw (room, out) Kept.stops
          | inr (present, here) ↦
              let after : Builder = record b {
                blocks = push_at b.blocks block i;
                instruction_count = b.instruction_count + 1;
              } in
              let same = length-push_at b.blocks block i in
              let g : Grows b after = record {
                blocks = omega (arith, same);
                constants = λ n c e. e;
              } in
              rw (room, here)
                (Kept.kept {after = after}
                  (record {
                    blocks = λ n is e. elim (push_at-cases b.blocks block i n is e) [
                      | inl (at_n, (old, (found, pushed))) ↦
                          rw (pushed, at_n)
                            (
                              All-append _ old (i ∷ [])
                                  (All-map _ _ old (Resolves-Grows b after g)
                                    (h.blocks n old found).0)
                                  (Resolves-Grows b after g i resolves, tt),
                              at_block old,
                            )
                      | inr (other, found) ↦
                          let (r, o) = h.blocks n is found in
                          (
                            All-map _ _ is (Resolves-Grows b after g) r,
                            elim o [
                              | inl is_o ↦ inl (elsewhere n other is_o)
                              | inr closed ↦ inr closed
                            ],
                          )
                    ];
                    counted = omega (arith, h.counted, push_at-total b.blocks block i present here);
                    instruction_room = ground arith;
                    block_room = omega (arith, same, h.block_room);
                    constant_room = h.constant_room;
                  })
                  g tt)
        ]
      ])

  pub emit-Keeps :
      (block : ℕ) (i : Instruction)
      → is_open block
      → Resolves (length b.blocks) b.constants i
      → Keeps bounds is_open Fine b (emit bounds block i)
  emit-Keeps block i o resolves =
      emit-opens is_open block i resolves (λ old. inl o) (λ n other is_o. is_o)

  new_block-Keeps :
      Keeps bounds
        (AndOpen (length b.blocks) is_open)
        (λ n after. (n ≡ length b.blocks) × (n < length after.blocks))
        b
        (new_block bounds)
  unfolding new_block
  new_block-Keeps = Keeps.keeps (elim (Bool-cases (leb bounds.maximum_blocks (length b.blocks))) [
    | inl full ↦ rw full Kept.stops
    | inr room ↦
        let after : Builder = record b { blocks = b.blocks ++ [] ∷ [] } in
        let longer = length-pushed b.blocks [] in
        let g : Grows b after = record { blocks = omega (arith, longer); constants = λ n c e. e } in
        rw room (
          Kept.kept {after = after}
            (record {
              blocks = λ n is e. elim (get_elem?-cases b.blocks [] is n e) [
                | inl old ↦
                    let (r, o) = h.blocks n is old in
                    (
                      All-map _ _ is (Resolves-Grows b after g) r,
                      elim o [ inl is_o ↦ inl (inr is_o) | inr closed ↦ inr closed ],
                    )
                | inr (at_end, empty) ↦ rw (sym empty) (tt, inl (inl at_end))
              ];
              counted = total-pushed b.blocks ∙ h.counted;
              instruction_room = h.instruction_room;
              block_room = ground (arith, longer);
              constant_room = h.constant_room;
            })
            g (refl, omega (arith, longer)))
  ])

close-Keeps :
    (bounds : KernelBytecodeBounds) (is_open : ℕ → Type 0) (b : Builder) (block : ℕ)
    → Builds bounds (AndOpen block is_open) b
    → Keeps bounds is_open Fine b (emit bounds block Instruction.return)
close-Keeps bounds is_open b block h =
    emit-opens bounds (AndOpen block is_open) b h is_open block Instruction.return tt
      (λ old. inr (IsClosed-snoc old))
      (λ n other o. elim o [ inl same ↦ absurd (other same) | inr is_o ↦ is_o ])

-- A closed block is a block of the builder.
pub closed_block-Keeps :
    (bounds : KernelBytecodeBounds) (is_open : ℕ → Type 0) (b : Builder)
    (compile : ℕ → Build (Unit {0}))
    → Builds bounds is_open b
    → ((n : ℕ) (c : Builder)
        → Builds bounds (AndOpen n is_open) c
        → Keeps bounds (AndOpen n is_open) Fine c (compile n))
    → Keeps bounds is_open (λ n after. n < length after.blocks) b (closed_block bounds compile)
unfolding closed_block
closed_block-Keeps bounds is_open b compile h body =
    new_block-Keeps bounds is_open b h ⟫ λ n c hc gc (same, lt).
    body n c (subst (λ m. Builds bounds (AndOpen m is_open) c) (sym same) hc) ⟫ λ t d hd gd q.
    close-Keeps bounds is_open d n hd ⟫ λ t e he ge q.
    pure-Keeps bounds is_open e he n (omega (arith, gd.blocks, ge.blocks, lt))
