-- ===== src/Generator/Literals/Pages.antt =====
-- `set_memory_pages` of clar2wasm/src/wasm_generator.rs: the pages that hold the literal memory.
use Prim.Native.String.{String}
use clarity_wasm.Prelude.{
  ℕ, zero, suc, ◌+◌, ◌*◌, ◌%◌, ◌≤◌, ◌<◌, ◌^◌, ◌≡◌, ap, List, [], ◌∷◌, Option, none, some, ok, arith,
  length, add32,
}
use clarity_wasm.Generator.State.{GenState, DataSegment, get_memory}
use clarity_wasm.Generator.Literals.Text.{TextLibrary}
use clarity_wasm.Generator.Literals.Defs.{
  set_memory_pages, total_memory_bytes, pages, end_of_standard_data,
}
use clarity_wasm.Generator.Literals.Placed.{Stacked}
use clarity_wasm.Generator.Literals.Adding.{HasMemory}
use clarity_wasm.Generator.Literals.Steps.{new_generator, Reach, Reach-IsPlaced}

abbrev pub list_at {ℓ} : {A : Type ℓ} → List A → ℕ → Option A
list_at [] i = none
list_at (x ∷ xs) zero = some x
list_at (x ∷ xs) (suc i) = list_at xs i

-- Behind the standard library's data, and before the offset.
abbrev pub Within : DataSegment → ℕ → Type 0
Within d e = (end_of_standard_data ≤ d.location) × (d.location + length d.value ≤ e)

Stacked-start : (ds : List DataSegment) (e : ℕ) → Stacked ds e → end_of_standard_data ≤ e
Stacked-start [] e p = p
Stacked-start (d ∷ ds) e (p, q) = omega (arith, Stacked-start ds d.location q)

Stacked-Within :
    (ds : List DataSegment) (e i : ℕ) {d : DataSegment}
    → Stacked ds e
    → list_at ds i ≡ some d
    → Within d e
Stacked-Within [] e i p h = absurd (cc)
Stacked-Within (c ∷ ds) e zero {d} (p, q) h =
    let s = Stacked-start ds c.location q in
    let l : c.location ≡ d.location = ground arith in
    let v : c.value ≡ d.value = ground arith in (omega arith, omega (arith, ap length v))
Stacked-Within (c ∷ ds) e (suc i) (p, q) h =
    let (a, b) = Stacked-Within ds c.location i q h in (a, omega arith)

-- The bytes in use: literals, the frame and the work space.
abbrev pub bytes_in_use : GenState → ℕ
bytes_in_use s = s.literal_memory_end + s.frame_size + s.max_work_space

set_memory_pages-run :
    (s : GenState) (h : HasMemory s)
    → bytes_in_use s < 2 ^ 32
    → set_memory_pages s ≡ ok (tt, [], record s { initial_pages = pages (bytes_in_use s) })
unfolding set_memory_pages get_memory total_memory_bytes add32
set_memory_pages-run s h b =
    let e : ((s.literal_memory_end + s.frame_size) % 2 ^ 32 + s.max_work_space) % 2 ^ 32
        ≡ bytes_in_use s =
      omega arith in
    rw (h.2, e)

pages-enough : (n : ℕ) → n ≤ pages n * 65536
unfolding pages
pages-enough n = ground arith

pages-least : (n p : ℕ) → n ≤ p * 65536 → pages n ≤ p
unfolding pages
pages-least n p h = ground arith

module _ (T : TextLibrary) where
  -- In every state that code generation reaches from a new generator, if the literals, the frame and
  -- the work space together fit in 32 bits, `set_memory_pages` succeeds and sets the least number of
  -- pages that holds them; every segment lies in these pages.
  pub set_memory_pages-holds :
      (memory : ℕ) (memories : List ℕ) (initial : ℕ) (globals functions : List (String × ℕ))
      {s : GenState}
      → Reach T (new_generator (memory ∷ memories) initial globals functions) s
      → bytes_in_use s < 2 ^ 32
      → (n : ℕ) × (set_memory_pages s ≡ ok (tt, [], record s { initial_pages = n }))
        × (bytes_in_use s ≤ n * 65536)
        × ((p : ℕ) → bytes_in_use s ≤ p * 65536 → n ≤ p)
        × ((i : ℕ) (d : DataSegment) → list_at s.segments i ≡ some d → Within d (n * 65536))
  set_memory_pages-holds memory memories initial globals functions {s} r b =
      let (p, m) = Reach-IsPlaced T memory memories initial globals functions r in
      let e = pages-enough (bytes_in_use s) in
      (
        pages (bytes_in_use s),
        set_memory_pages-run s m b,
        e,
        λ q h. pages-least (bytes_in_use s) q h,
        λ i d h.
            let w = Stacked-Within s.segments s.literal_memory_end i p.stacked h in
            (w.0, omega (arith, w.1, e)),
      )
