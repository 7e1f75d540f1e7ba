-- ===== src/Bytecode/Compiler/Invariant.antt =====
-- src/kernel-bytecode/compiler.ts: what holds of the builder while it compiles.
pub mod Blocks
use mathlib.Core.Path.{subst}
use semantic_systems.Base.{
  ℕ, zero, suc, ◌+◌, ◌≤◌, ◌<◌, ◌≡◌, refl, sym, ◌∙◌, ◌≢◌, ◌⊎◌, inl, inr, String, List, [], ◌∷◌, ◌++◌,
  Option, none, some, arith, leb, length, get_elem?, All, Bool-cases, Option-cases, some-injective,
  none-some, get_elem?-append, get_elem?-pushed, length-pushed, get_elem?-cases, All-append,
  All-map,
}
use semantic_systems.Bytecode.Instruction.{
  HandlerClause, Instruction, Constant, KernelBytecodeBounds,
}
use semantic_systems.Bytecode.Graph.{
  IsClosed, HasText, ClauseResolves, Resolves, instruction_total, IsClosed-snoc,
}
use semantic_systems.Bytecode.Compiler.{
  Builder, Built, Build, pure, ◌>>=◌, push_at, new_slot, invalid_custody, resolve, new_constant,
  new_block, emit, closed_block,
}

-- The blocks that are not open end with a `Return`, all references resolve, and the three
-- capacities are kept.
pub record Builds (bounds : KernelBytecodeBounds) (is_open : ℕ → Type 0) (builder : Builder)
    : Type 0 where
  pub blocks :
      (n : ℕ) (instructions : List Instruction)
      → get_elem? builder.blocks n ≡ some instructions
      → All (Resolves (length builder.blocks) builder.constants) instructions
        × (is_open n ⊎ IsClosed instructions)
  pub counted : instruction_total builder.blocks ≡ builder.instruction_count
  pub instruction_room : builder.instruction_count ≤ bounds.maximum_instructions
  pub block_room : length builder.blocks ≤ bounds.maximum_blocks
  pub constant_room : length builder.constants ≤ bounds.maximum_constants

-- Blocks are added and constants are kept.
pub record Grows (before after : Builder) : Type 0 where
  pub blocks : length before.blocks ≤ length after.blocks
  pub constants :
      (n : ℕ) (c : Constant)
      → get_elem? before.constants n ≡ some c
      → get_elem? after.constants n ≡ some c

pub Grows-refl : (b : Builder) → Grows b b
Grows-refl b = record { blocks = omega arith; constants = λ n c e. e }

pub Grows-trans : (b c d : Builder) → Grows b c → Grows c d → Grows b d
Grows-trans b c d h k = record {
  blocks = omega (arith, h.blocks, k.blocks);
  constants = λ n x e. k.constants n x (h.constants n x e);
}

pub HasText-Grows :
    (b c : Builder) → Grows b c → (n : ℕ) → HasText b.constants n → HasText c.constants n
HasText-Grows b c g n (t, e) = (t, g.constants n _ e)

pub ClauseResolves-Grows :
    (b c : Builder)
    → Grows b c
    → (x : HandlerClause) → ClauseResolves (length b.blocks) b.constants x
    → ClauseResolves (length c.blocks) c.constants x
ClauseResolves-Grows b c g x (t, lt) = (HasText-Grows b c g _ t, omega (arith, g.blocks, lt))

pub Resolves-Grows :
    (b c : Builder)
    → Grows b c
    → (i : Instruction) → Resolves (length b.blocks) b.constants i
    → Resolves (length c.blocks) c.constants i
Resolves-Grows b c g (Instruction.push_bool slot) (v, e) = (v, g.constants slot _ e)
Resolves-Grows b c g (Instruction.push_int slot) (v, e) = (v, g.constants slot _ e)
Resolves-Grows b c g (Instruction.make_thunk entry slots) lt = omega (arith, g.blocks, lt)
Resolves-Grows b c g (Instruction.make_function entry slot slots) lt = omega (arith, g.blocks, lt)
Resolves-Grows b c g (Instruction.jump target) lt = omega (arith, g.blocks, lt)
Resolves-Grows b c g (Instruction.enter_handler label block slot clauses) (t, lt, cs) = (
  HasText-Grows b c g label t,
  omega (arith, g.blocks, lt),
  All-map _ _ clauses (ClauseResolves-Grows b c g) cs,
)
Resolves-Grows b c g (Instruction.request l o t) (h, k, (type, e)) =
    (HasText-Grows b c g l h, HasText-Grows b c g o k, (type, g.constants t _ e))
Resolves-Grows b c g Instruction.push_unit h = tt
Resolves-Grows b c g (Instruction.load_slot slot) h = tt
Resolves-Grows b c g (Instruction.bind_slot slot) h = tt
Resolves-Grows b c g Instruction.make_pair h = tt
Resolves-Grows b c g Instruction.force h = tt
Resolves-Grows b c g Instruction.call h = tt
Resolves-Grows b c g Instruction.leave_handler h = tt
Resolves-Grows b c g (Instruction.resume_slot slot) h = tt
Resolves-Grows b c g Instruction.return h = tt

-- The result of a part of the compiler, if there is one, leaves a grown builder, and has `Q`.
pub data Kept {ℓ} {A : Type ℓ} (bounds : KernelBytecodeBounds) (is_open : ℕ → Type 0)
    (Q : A → Builder → Type 0) (before : Builder) : Built A → Type ℓ where
  kept :
      {a : A} {after : Builder}
      → Builds bounds is_open after
      → Grows before after
      → Q a after
      → Kept bounds is_open Q before (Built.built a after)
  stops : {code : String} → Kept bounds is_open Q before (Built.failed code)

-- The same of a part of the compiler that is run on a builder.
pub data Keeps {ℓ} {A : Type ℓ} (bounds : KernelBytecodeBounds) (is_open : ℕ → Type 0)
    (Q : A → Builder → Type 0) (before : Builder) (act : Build A) : Type ℓ where
  keeps : Kept bounds is_open Q before (act before) → Keeps bounds is_open Q before act

Kept-grown {ℓ} :
    {A : Type ℓ} (bounds : KernelBytecodeBounds) (is_open : ℕ → Type 0) (Q : A → Builder → Type 0)
    (b c : Builder) (act : Build A)
    → Grows b c
    → Keeps bounds is_open Q c act
    → Kept bounds is_open Q b (act c)
Kept-grown {A = A} bounds is_open Q b c act g (Keeps.keeps k) = go (act c) k
  where
    go : (r : Built A) → Kept bounds is_open Q c r → Kept bounds is_open Q b r
    go (Built.built a d) (Kept.kept h g' q) = Kept.kept h (Grows-trans b c d g g') q
    go (Built.failed code) Kept.stops = Kept.stops

Kept-elim {ℓ κ} :
    {A : Type ℓ} {B : Type κ} (bounds : KernelBytecodeBounds) (is_open is_open' : ℕ → Type 0)
    (Q : A → Builder → Type 0) (R : B → Builder → Type 0) (before : Builder) (r : Built A)
    (next : A → Build B)
    → Kept bounds is_open Q before r
    → ((a : A) (b : Builder)
        → Builds bounds is_open b
        → Grows before b
        → Q a b
        → Keeps bounds is_open' R b (next a))
    → Kept bounds is_open' R before
        (elim r [ Built.failed code ↦ Built.failed code | Built.built a b ↦ next a b ])
Kept-elim bounds is_open is_open' Q R before (Built.failed code) next h k = Kept.stops
Kept-elim bounds is_open is_open' Q R before (Built.built a b) next (Kept.kept h g q) k =
    Kept-grown bounds is_open' R before b (next a) g (k a b h g q)

infixl 1 ◌⟫◌
pub ◌⟫◌ {ℓ κ} :
    {A : Type ℓ} {B : Type κ} {bounds : KernelBytecodeBounds} {is_open is_open' : ℕ → Type 0}
    {Q : A → Builder → Type 0} {R : B → Builder → Type 0} {before : Builder} {act : Build A}
    {next : A → Build B}
    → Keeps bounds is_open Q before act
    → ((a : A) (b : Builder)
        → Builds bounds is_open b
        → Grows before b
        → Q a b
        → Keeps bounds is_open' R b (next a))
    → Keeps bounds is_open' R before (act >>= next)
unfolding ◌>>=◌
◌⟫◌ {bounds = bounds} {is_open = is_open} {is_open' = is_open'} {Q = Q} {R = R} {before = before}
      {act = act} {next = next} (Keeps.keeps first) then =
    Keeps.keeps (Kept-elim bounds is_open is_open' Q R before (act before) next first then)

-- A part of the compiler with nothing to say of its result.
abbrev pub Fine : Unit {0} → Builder → Type 0
Fine t b = Unit

module _ (bounds : KernelBytecodeBounds) (is_open : ℕ → Type 0) (b : Builder)
    (h : Builds bounds is_open b) where
  pub pure-Keeps {ℓ} :
      {A : Type ℓ} {Q : A → Builder → Type 0} (a : A) → Q a b → Keeps bounds is_open Q b (pure a)
  pure-Keeps a q = Keeps.keeps (Kept.kept h (Grows-refl b) q)

  pub new_slot-Keeps : Keeps bounds is_open (λ slot after. Unit) b new_slot
  unfolding new_slot
  new_slot-Keeps = Keeps.keeps (
      Kept.kept
        (record {
          blocks = h.blocks;
          counted = h.counted;
          instruction_room = h.instruction_room;
          block_room = h.block_room;
          constant_room = h.constant_room;
        })
        (record { blocks = omega arith; constants = λ n c e. e }) tt)

  pub resolve-Keeps {ℓ} :
      {A : Type ℓ} (o : Option A) → Keeps bounds is_open (λ a after. Unit) b (resolve o)
  unfolding resolve invalid_custody
  resolve-Keeps none = Keeps.keeps Kept.stops
  resolve-Keeps (some a) = Keeps.keeps (Kept.kept h (Grows-refl b) tt)

  pub invalid_custody-Keeps {ℓ} :
      {A : Type ℓ} {Q : A → Builder → Type 0} → Keeps bounds is_open Q b invalid_custody
  unfolding invalid_custody
  invalid_custody-Keeps = Keeps.keeps Kept.stops

  pub new_constant-Keeps :
      (c : Constant)
      → Keeps bounds is_open
          (λ slot after. get_elem? after.constants slot ≡ some c)
          b
          (new_constant bounds c)
  unfolding new_constant
  new_constant-Keeps c =
      Keeps.keeps (elim (Bool-cases (leb bounds.maximum_constants (length b.constants))) [
        | inl full ↦ rw full Kept.stops
        | inr room ↦
            let g : Grows b (record b { constants = b.constants ++ c ∷ [] }) = record {
              blocks = omega arith;
              constants = λ n x e. get_elem?-append b.constants (c ∷ []) n x e;
            } in
            rw room (
              Kept.kept
                (record {
                  blocks = λ n is e.
                      let (r, o) = h.blocks n is e in (All-map _ _ is (Resolves-Grows b _ g) r, o);
                  counted = h.counted;
                  instruction_room = h.instruction_room;
                  block_room = h.block_room;
                  constant_room = ground (arith, length-pushed b.constants c);
                })
                g (get_elem?-pushed b.constants c))
      ])
