-- ===== src/Mir/Numbering.antt =====
-- The temporaries of lowered code are numbered in the order of their definitions, and each is
-- defined before it is used.
pub mod Exprs
pub mod Stmts
use gof_lang.Prelude.{
  ℕ, ◌+◌, ◌≤◌, ◌<◌, ◌≡◌, ◌∙◌, Bool, true, ◌&&◌, List, [], ◌∷◌, Option, none, some, ltb, ◌==◌,
  if◌then◌else◌, steps, steps-append,
}
use gof_lang.Mir.Instruction.{MirInstruction}
use gof_lang.Mir.Builder.{MirBuilder, push}

-- The temporary that an instruction defines.
unfoldable pub dest : MirInstruction → Option ℕ
dest (MirInstruction.const_int d _) = some d
dest (MirInstruction.const_string d _) = some d
dest (MirInstruction.const_bool d _) = some d
dest (MirInstruction.const_enum_variant d _ _ _) = some d
dest (MirInstruction.build_list d _) = some d
dest (MirInstruction.build_dict d _) = some d
dest (MirInstruction.build_struct d _ _) = some d
dest (MirInstruction.load_local d _) = some d
dest (MirInstruction.load_field d _ _) = some d
dest (MirInstruction.call d _ _) = some d
dest (MirInstruction.index d _ _) = some d
dest (MirInstruction.spawn d _ _) = some d
dest (MirInstruction.await d _) = some d
dest (MirInstruction.propagate d _) = some d
dest (MirInstruction.unary d _ _) = some d
dest (MirInstruction.binary d _ _ _) = some d
dest _ = none

abbrev pub both : List (ℕ × ℕ) → List ℕ
both [] = []
both ((a, b) ∷ ps) = a ∷ b ∷ both ps

-- The temporaries that an instruction uses.
unfoldable pub operands : MirInstruction → List ℕ
operands (MirInstruction.const_enum_variant _ _ _ args) = args
operands (MirInstruction.build_list _ items) = items
operands (MirInstruction.build_dict _ entries) = both entries
operands (MirInstruction.build_struct _ _ fields) = fields
operands (MirInstruction.load_field _ target _) = target ∷ []
operands (MirInstruction.store_local _ src _ _) = src ∷ []
operands (MirInstruction.call _ _ args) = args
operands (MirInstruction.index _ target place) = target ∷ place ∷ []
operands (MirInstruction.spawn _ _ args) = args
operands (MirInstruction.await _ task) = task ∷ []
operands (MirInstruction.propagate _ value) = value ∷ []
operands (MirInstruction.unary _ _ value) = value ∷ []
operands (MirInstruction.binary _ lhs _ rhs) = lhs ∷ rhs ∷ []
operands (MirInstruction.begin_if condition) = condition ∷ []
operands (MirInstruction.begin_while condition) = condition ∷ []
operands (MirInstruction.begin_for iterable _) = iterable ∷ []
operands (MirInstruction.begin_match value) = value ∷ []
operands (MirInstruction.select_arm (some operation) _ _) = operation ∷ []
operands (MirInstruction.eval value) = value ∷ []
operands (MirInstruction.return value) = value ∷ []
operands _ = []

abbrev pub all_below : ℕ → List ℕ → Bool
all_below n [] = true
all_below n (x ∷ xs) = ltb x n && all_below n xs

-- With `n` temporaries defined, an instruction may use those, and define the next one.
abbrev pub define : ℕ → Option ℕ → Option ℕ
define n none = some n
define n (some d) = if d == n then some (n + 1) else none

unfoldable pub number_step : ℕ → MirInstruction → Option ℕ
number_step n i = if all_below n (operands i) then define n (dest i) else none

-- The instructions of the builder define its temporaries, one after the other.
abbrev pub IsNumbered : MirBuilder → Type 0
IsNumbered b = steps number_step 0 b.instructions ≡ some b.next_temp

pub push-IsNumbered :
    (i : MirInstruction) (b : MirBuilder)
    → IsNumbered b
    → number_step b.next_temp i ≡ some b.next_temp
    → IsNumbered (push i b)
unfolding push
push-IsNumbered i b h k = steps-append number_step 0 b.instructions (i ∷ []) h ∙ rw k

-- The builder after an expression: it has grown, and the result is one of its temporaries.
pub record Extends (b : MirBuilder) (r : MirBuilder × ℕ) : Type 0 where
  pub numbered : IsNumbered r.0
  pub grows : b.next_temp ≤ r.0.next_temp
  pub below : r.1 < r.0.next_temp

pub record ExtendsAll (b : MirBuilder) (b' : MirBuilder) (temps : List ℕ) : Type 0 where
  pub numbered : IsNumbered b'
  pub grows : b.next_temp ≤ b'.next_temp
  pub below : all_below b'.next_temp temps ≡ true
