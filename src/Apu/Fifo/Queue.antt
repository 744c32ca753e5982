-- ===== src/Apu/Fifo/Queue.antt =====
-- The ring buffer implements a queue of at most 32 samples.
use gba_eval.Base.{
  ℕ, zero, suc, ◌+◌, ◌-◌, ◌%◌, ◌<◌, ◌≤◌, ◌≡◌, refl, ◌==◌, ltb, true, false, if◌then◌else◌, arith,
  ap, ap₂, ◌∙◌, Bool-cases, inl, inr, update, ℤ, pos, List, [], ◌∷◌, ◌++◌, length,
}
use gba_eval.Apu.Fifo.{Fifo, fifo_push, fifo_write, fifo_read, signed8, fifo_size}

-- What the code is to do, on the queue itself.
pub push : ℤ → List ℤ → List ℤ
push x q = if ltb (length q) fifo_size then q ++ (x ∷ []) else q

pub pop : List ℤ → List ℤ × ℤ
pop [] = ([], pos 0)
pop (x ∷ q) = (q, x)

pub elements : ℕ → ℕ → (ℕ → ℤ) → List ℤ
elements zero p d = []
elements (suc n) p d = d p ∷ elements n ((p + 1) % fifo_size) d

pub contents : Fifo → List ℤ
contents f = elements f.len f.read_pos f.samples

pub record IsFifo (f : Fifo) : Type 0 where
  pub read_in : f.read_pos < 32
  pub len_in : f.len ≤ 32
  pub write_at : f.write_pos ≡ (f.read_pos + f.len) % 32

length-elements : (n p : ℕ) (d : ℕ → ℤ) → length (elements n p d) ≡ n
unfolding elements
length-elements zero p d = refl
length-elements (suc n) p d = ap suc (length-elements n ((p + 1) % fifo_size) d)

elements-update :
    (n p w : ℕ) (d : ℕ → ℤ) (x : ℤ)
    → n < 32
    → p < 32
    → w ≡ (p + n) % 32
    → elements (suc n) p (update d w x) ≡ elements n p d ++ (x ∷ [])
unfolding elements
elements-update zero p w d x h k e = let here : (p == w) ≡ true = ground arith in rw here
elements-update (suc n) p w d x h k e =
    let other : (p == w) ≡ false = ground arith in
    ap₂ (λ (y : ℤ) (q : List ℤ). y ∷ q) (rw other)
      (elements-update n ((p + 1) % 32) w d x (omega arith) (omega arith) (omega arith))

push-IsFifo : (a : ℕ) (f : Fifo) → IsFifo f → IsFifo (fifo_push a f)
unfolding fifo_push
push-IsFifo a f v = ground arith

contents-push :
    (a : ℕ) (f : Fifo) → IsFifo f → contents (fifo_push a f) ≡ push (signed8 a) (contents f)
unfolding contents fifo_push push
contents-push a f v = elim (Bool-cases (ltb f.len fifo_size)) [
  | inl room ↦
      let next : f.len + 1 ≡ suc f.len = omega arith in
      rw (length-elements f.len f.read_pos f.samples, room, next)
        (elements-update f.len f.read_pos f.write_pos f.samples (signed8 a) (ground arith) v.read_in
          v.write_at)
  | inr full ↦ rw (length-elements f.len f.read_pos f.samples, full)
]

contents-read :
    (f : Fifo) → IsFifo f → (contents (fifo_read f).0, (fifo_read f).1) ≡ pop (contents f)
unfolding contents fifo_read
contents-read f v = by_length f.len refl
  where
    by_length : (n : ℕ) → f.len ≡ n → (contents (fifo_read f).0, (fifo_read f).1) ≡ pop (contents f)
    by_length zero e = rw e (unfold elements pop in refl)
    by_length (suc n) e =
        let less : suc n - 1 ≡ n = omega arith in
        let filled : (suc n == 0) ≡ false = ground arith in
        rw e (unfold elements pop in rw (less, filled) refl)

-- A write of two bytes adds the samples that still fit to the end of the queue, and a read takes
-- the first one away, or returns 0 from an empty queue; both keep the positions of the ring in step.
pub fifo-refines :
    (a b : ℕ) (f : Fifo)
    → IsFifo f
    → (contents (fifo_write a b f) ≡ push (signed8 b) (push (signed8 a) (contents f)))
      × ((contents (fifo_read f).0, (fifo_read f).1) ≡ pop (contents f))
      × IsFifo (fifo_write a b f)
      × IsFifo (fifo_read f).0
unfolding fifo_write
fifo-refines a b f v = (
  contents-push b (fifo_push a f) (push-IsFifo a f v) ∙ ap (push (signed8 b)) (contents-push a f v),
  contents-read f v,
  push-IsFifo b (fifo_push a f) (push-IsFifo a f v),
  unfold fifo_read in ground arith,
)
