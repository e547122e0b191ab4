-- ===== src/Generator/Storing.antt =====
-- What a stretch of emitted code does that stores the values on top of the stack.
use mathlib.Core.List.{append-nil}
use clarity_wasm.Prelude.{
  ℕ, ◌+◌, ◌≤◌, ◌≡◌, ◌≢◌, refl, subst, ◌∙◌, List, [], ◌∷◌, ◌++◌, some, arith, length, length-append,
  to_le_bytes, length-to_le_bytes,
}
use clarity_wasm.Layout.{ValType, i32, i64}
use clarity_wasm.Wasm.Memory.{LinearMemory}
use clarity_wasm.Wasm.Written.{Written, Written-write, Written-append, Written-append_up}
use clarity_wasm.Wasm.Machine.{
  Val, LocalId, Instr, local_get, local_set, drop_top, i32_const, store, byte_count, update,
  Machine, step, exec, exec-append,
}
use clarity_wasm.Generator.Represents.{bytes_of, bytes_of-append, byte_length}

-- A value's words on the stack, the last one on top.
abbrev pub push_all : List Val → List Val → List Val
push_all [] st = st
push_all (v ∷ vs) st = push_all vs (v ∷ st)

pub push_all-append : (vs ws st : List Val) → push_all (vs ++ ws) st ≡ push_all ws (push_all vs st)
push_all-append [] ws st = refl
push_all-append (v ∷ vs) ws st = push_all-append vs ws (v ∷ st)

update_self : (f : LocalId → Val) (x : LocalId) (v : Val) → update f x v x ≡ v
update_self f x v = ground arith

update_ne : (f : LocalId → Val) (x y : LocalId) (v : Val) → x ≢ y → update f x v y ≡ f y
update_ne f x y v h = ground arith

module _ (W : LinearMemory) where
  open W use {Memory, size, read, write, read_fits, write_fits, length-read}

  abbrev pub machine : List Val → (LocalId → Val) → Memory → Machine W
  machine st f mem = record { stack = st; locals = f; memory = mem }

  -- Started with `vs` on top of the stack and an address in the local `base`, the code takes them
  -- off, and their bytes stand at that address plus `off`; nothing else in memory has changed.
  pub record Stores (base : LocalId) (off : ℕ) (vs : List Val) (code : List Instr) (a : ℕ)
      (st : List Val) (f : LocalId → Val) (mem : Memory) : Type 0 where
    pub locals : LocalId → Val
    pub memory : Memory
    pub run : exec W code (machine (push_all vs st) f mem) ≡ some (machine st locals memory)
    pub kept : locals base ≡ (i32, a)
    pub written : Written W mem memory (a + off) (bytes_of vs)

  abbrev pub AlwaysStores : LocalId → ℕ → List Val → List Instr → Type 0
  AlwaysStores base off vs code =
      (a : ℕ) (st : List Val) (f : LocalId → Val) (mem : W.Memory)
      → f base ≡ (i32, a)
      → a + off + byte_length vs ≤ size mem
      → Stores base off vs code a st f mem

  -- Code that stores the upper part, then code that stores the lower part.
  pub AlwaysStores-append :
      (base : LocalId) (off : ℕ) (vs ws : List Val) (c d : List Instr)
      → AlwaysStores base (off + byte_length vs) ws c
      → AlwaysStores base off vs d
      → AlwaysStores base off (vs ++ ws) (c ++ d)
  AlwaysStores-append base off vs ws c d hc hd a st f mem e h =
      let l : byte_length (vs ++ ws) ≡ byte_length vs + byte_length ws =
        rw (bytes_of-append vs ws) (length-append (bytes_of vs) (bytes_of ws)) in
      let u = hc a (push_all vs st) f mem e (omega arith) in
      let w = hd a st u.locals u.memory u.kept (omega (arith, u.written.same_size)) in
      record {
        locals = w.locals;
        memory = w.memory;
        run = rw (push_all-append vs ws st, exec-append W c d, u.run) w.run;
        kept = w.kept;
        written = rw (bytes_of-append vs ws) (
            Written-append W (a + off) (bytes_of vs) (bytes_of ws)
              (subst (λ o. Written W mem u.memory o (bytes_of ws)) (omega arith) u.written)
              w.written);
      }

  -- One store from a local.
  exec-store :
      (base x off mm al : ℕ) (ty : ValType) (v a : ℕ) (st : List Val) (f : LocalId → Val)
      (mem : W.Memory) {mem' : W.Memory}
      → f base ≡ (i32, a)
      → f x ≡ (ty, v)
      → write mem (a + off) (to_le_bytes (byte_count ty) v) ≡ some mem'
      → exec W (local_get base ∷ local_get x ∷ store ty mm al off ∷ []) (machine st f mem)
        ≡ some (machine st f mem')
  unfolding exec step
  exec-store base x off mm al i32 v a st f mem p q w = rw (p, q, w)
  exec-store base x off mm al i64 v a st f mem p q w = rw (p, q, w)

  -- The top of the stack, through a local.
  pub AlwaysStores-one :
      (base x off mm al : ℕ) (ty : ValType) (v : ℕ)
      → x ≢ base
      → AlwaysStores base off
          ((ty, v) ∷ [])
          (local_set x ∷ local_get base ∷ local_get x ∷ store ty mm al off ∷ [])
  unfolding exec step
  AlwaysStores-one base x off mm al ty v n a st f mem e h =
      let bs = to_le_bytes (byte_count ty) v in
      let g = update f x (ty, v) in
      let kept : g base ≡ (i32, a) = update_ne f x base (ty, v) n ∙ e in
      let (mem', w) = write_fits mem (a + off) bs (rw (append-nil bs) at h) in
      record {
        locals = g;
        memory = mem';
        run = exec-store base x off mm al ty v a st g mem kept (update_self f x (ty, v)) w;
        kept = kept;
        written = rw (append-nil bs) (Written-write W w);
      }

  exec-store_two :
      (base x y off off' mm al : ℕ) (ty : ValType) (l h a : ℕ) (st : List Val) (f : LocalId → Val)
      (mem : W.Memory) {m₁ m₂ : W.Memory}
      → f base ≡ (i32, a)
      → f x ≡ (ty, l)
      → f y ≡ (ty, h)
      → write mem (a + off) (to_le_bytes (byte_count ty) l) ≡ some m₁
      → write m₁ (a + off') (to_le_bytes (byte_count ty) h) ≡ some m₂
      → exec W
          (local_get base
            ∷ local_get x
            ∷ store ty mm al off
            ∷ local_get base
            ∷ local_get y
            ∷ store ty mm al off'
            ∷ [])
          (machine st f mem)
        ≡ some (machine st f m₂)
  exec-store_two base x y off off' mm al ty l h a st f mem {m₁} p q r w₁ w₂ =
      exec-append W (local_get base ∷ local_get x ∷ store ty mm al off ∷ []) _ (machine st f mem)
      ∙ rw (exec-store base x off mm al ty l a st f mem p q w₁)
          (exec-store base y off' mm al ty h a st f m₁ p r w₂)

  Written-two :
      (o o' : ℕ) (xs ys : List ℕ) {mem m₁ m₂ : W.Memory}
      → o' ≡ o + length xs
      → write mem o xs ≡ some m₁
      → write m₁ o' ys ≡ some m₂
      → Written W mem m₂ o (xs ++ (ys ++ []))
  Written-two o o' xs ys {mem} {m₁} {m₂} e w₁ w₂ = rw (append-nil ys) (
      Written-append_up W o xs ys (Written-write W w₁)
        (subst (λ q. Written W m₁ m₂ q ys) e (Written-write W w₂)))

  -- The two words on top of the stack, through two locals.
  pub AlwaysStores-pair :
      (base x y off off' mm al : ℕ) (ty : ValType) (l h : ℕ)
      → x ≢ base
      → y ≢ base
      → x ≢ y
      → off' ≡ off + byte_count ty
      → AlwaysStores base off ((ty, l) ∷ (ty, h) ∷ []) (
          local_set y
          ∷ local_set x
          ∷ local_get base
          ∷ local_get x
          ∷ store ty mm al off
          ∷ local_get base
          ∷ local_get y
          ∷ store ty mm al off'
          ∷ [])
  unfolding exec step
  AlwaysStores-pair base x y off off' mm al ty l h nx ny nxy eo a st f mem e room =
      let k = byte_count ty in
      let xs = to_le_bytes k l in
      let ys = to_le_bytes k h in
      let f₁ = update f y (ty, h) in
      let g = update f₁ x (ty, l) in
      let kept : g base ≡ (i32, a) =
        update_ne f₁ x base (ty, l) nx ∙ update_ne f y base (ty, h) ny ∙ e in
      let high : g y ≡ (ty, h) = update_ne f₁ x y (ty, l) nxy ∙ update_self f y (ty, h) in
      let len : length (xs ++ ys) ≡ k + k =
        rw (length-append xs ys, length-to_le_bytes k l, length-to_le_bytes k h) in
      let fits : a + off + length (xs ++ ys) ≤ size mem = rw (append-nil ys) at room in
      let (m₁, w₁) = write_fits mem (a + off) xs (omega (arith, len, length-to_le_bytes k l)) in
      let (m₂, w₂) =
        write_fits m₁ (a + off') ys
          (omega (arith, len, length-to_le_bytes k h, (Written-write W w₁).same_size)) in
      record {
        locals = g;
        memory = m₂;
        run =
            exec-store_two base x y off off' mm al ty l h a st g mem kept (update_self f₁ x (ty, l))
              high w₁ w₂;
        kept = kept;
        written =
            Written-two (a + off) (a + off') xs ys (omega (arith, length-to_le_bytes k l)) w₁ w₂;
      }

  pub AlwaysStores-no_type :
      (base off mm al : ℕ)
      → AlwaysStores base off
          ((i32, 0) ∷ [])
          (drop_top ∷ local_get base ∷ i32_const 0 ∷ store i32 mm al off ∷ [])
  unfolding exec step
  AlwaysStores-no_type base off mm al a st f mem e h =
      let bs = to_le_bytes 4 0 in
      let (mem', w) = write_fits mem (a + off) bs (rw (append-nil bs) at h) in
      record {
        locals = f;
        memory = mem';
        run = rw (e, w);
        kept = e;
        written = rw (append-nil bs) (Written-write W w);
      }

  read_nothing : (m : W.Memory) (o : ℕ) → o ≤ size m → read m o 0 ≡ some []
  read_nothing m o h = go (read_fits m o 0 (omega arith))
    where
      go : (bs : List ℕ) × (read m o 0 ≡ some bs) → read m o 0 ≡ some []
      go ([], e) = e
      go (b ∷ bs, e) = absurd (omega (arith, length-read e))

  pub AlwaysStores-nil : (base off : ℕ) → AlwaysStores base off [] []
  unfolding exec
  AlwaysStores-nil base off a st f mem e h = record {
    locals = f;
    memory = mem;
    run = refl;
    kept = e;
    written = record {
      same_size = refl;
      here = read_nothing mem (a + off) (omega arith);
      elsewhere = λ p k h. refl;
    };
  }
