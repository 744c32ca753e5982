-- ===== src/Ppu/Layers/Order.antt =====
-- The order of the layers at a pixel.
use gba_eval.Base.{
  ℕ, ◌==◌, ◌≡◌, refl, ap, ◌∙◌, true, false, Option, some, none, List, [], ◌∷◌, ◌++◌, sym,
  Bool-cases, inl, inr,
}
use mathlib.Core.List.{append-nil, append_assoc}
use gba_eval.Ppu.{Ppu}
use gba_eval.Ppu.Layers.{
  Line, Opaque, Search, Pixel, place, obj_at, bg_at, offer, offer_obj, scan_prio, scan_layers,
  nothing_found,
}

abbrev somes : {A : Type 0} → List (Option A) → List A
somes [] = []
somes (none ∷ os) = somes os
somes (some o ∷ os) = o ∷ somes os

-- What is found when the opaque layers, in their order, are `l`: the first two, before the backdrop.
pub first_two : Ppu → List Opaque → Search
unfolding Opaque
first_two ppu [] = nothing_found ppu
first_two ppu ((c, l, semi) ∷ []) =
    let (p, left) = nothing_found ppu in
    (record p { top_color = c; top_layer = l; obj_semi = semi; found_top = true }, false)
first_two ppu ((c, l, semi) ∷ (c', l', semi') ∷ rest) =
    let (p, left) = nothing_found ppu in
    (
      record p {
        top_color = c;
        top_layer = l;
        bot_color = c';
        bot_layer = l';
        obj_semi = semi;
        found_top = true;
      },
      true,
    )

-- The layers of a priority in their order, the object first.
pub layers_of : Ppu → Line → ℕ → ℕ → ℕ → List (Option Opaque)
layers_of ppu line x flags prio =
    obj_at ppu line x flags prio
    ∷ bg_at ppu line x flags prio 0
    ∷ bg_at ppu line x flags prio 1
    ∷ bg_at ppu line x flags prio 2
    ∷ bg_at ppu line x flags prio 3
    ∷ []

-- The opaque layers at a pixel, by priority, the object first among those of one priority.
pub opaque_layers : Ppu → Line → ℕ → ℕ → List Opaque
opaque_layers ppu line x flags =
    let layers = λ (prio : ℕ). somes (layers_of ppu line x flags prio) in
    layers 0 ++ layers 1 ++ layers 2 ++ layers 3

abbrev offers : List (Option Opaque) → Search → Search
offers [] s = s
offers (o ∷ os) s = offers os (offer o s)

offers-append :
    (os os' : List (Option Opaque)) (s : Search) → offers (os ++ os') s ≡ offers os' (offers os s)
offers-append [] os' s = refl
offers-append (o ∷ os) os' s = offers-append os os' (offer o s)

module _ (ppu : Ppu) where
  offer-first_two :
      (o : Opaque) (l : List Opaque)
      → offer (some o) (first_two ppu l) ≡ first_two ppu (l ++ (o ∷ []))
  unfolding offer place first_two Opaque
  offer-first_two (c, n, semi) [] = refl
  offer-first_two (c, n, semi) ((c', n', semi') ∷ []) = refl
  offer-first_two (c, n, semi) ((c', n', semi') ∷ (c'', n'', semi'') ∷ rest) = refl

  offers-first_two :
      (os : List (Option Opaque)) (l : List Opaque)
      → offers os (first_two ppu l) ≡ first_two ppu (l ++ somes os)
  unfolding offer
  offers-first_two [] l = ap (first_two ppu) (sym (append-nil l))
  offers-first_two (none ∷ os) l = offers-first_two os l
  offers-first_two (some o ∷ os) l =
      ap (offers os) (offer-first_two o l)
      ∙ offers-first_two os (l ++ (o ∷ []))
      ∙ ap (first_two ppu) (append_assoc l (o ∷ []) (somes os))

  offer-left : (o : Option Opaque) (p : Pixel) → offer o (p, true) ≡ (p, true)
  unfolding offer
  offer-left none p = refl
  offer-left (some o) p = refl

  offer_obj-first_two :
      (o : Option Opaque) (l : List Opaque)
      → offer_obj o (first_two ppu l) ≡ offer o (first_two ppu l)
  unfolding offer_obj offer first_two Opaque
  offer_obj-first_two o [] = refl
  offer_obj-first_two o ((c, n, semi) ∷ []) = refl
  offer_obj-first_two o ((c, n, semi) ∷ (c', n', semi') ∷ rest) = elim (Bool-cases (n' == 5)) [
    | inl e ↦ rw e refl
    | inr e ↦ rw e (sym (offer-left o _))
  ]

  module _ (line : Line) (x flags : ℕ) where
    scan_prio-first_two :
        (prio : ℕ) (l : List Opaque)
        → scan_prio ppu line x flags prio (first_two ppu l)
          ≡ first_two ppu (l ++ somes (layers_of ppu line x flags prio))
    unfolding scan_prio layers_of
    scan_prio-first_two prio l =
        rw (offer_obj-first_two (obj_at ppu line x flags prio) l)
          (offers-first_two (layers_of ppu line x flags prio) l)

none_opaque : (ppu : Ppu) → nothing_found ppu ≡ first_two ppu []
unfolding first_two
none_opaque ppu = refl

at_start :
    (ppu : Ppu) (line : Line) (x flags : ℕ)
    → scan_prio ppu line x flags 0 (nothing_found ppu)
      ≡ first_two ppu (somes (layers_of ppu line x flags 0))
at_start ppu line x flags =
    ap (scan_prio ppu line x flags 0) (none_opaque ppu) ∙ scan_prio-first_two ppu line x flags 0 []

-- The search over the priorities, which stops when it has two layers, finds the first two of all
-- opaque layers that the windows let through, by priority, the object before the backgrounds and
-- those by their number; where there are fewer, it leaves the backdrop.
pub scan_layers-first_two :
    (ppu : Ppu) (line : Line) (x flags : ℕ)
    → scan_layers ppu line x flags ≡ first_two ppu (opaque_layers ppu line x flags)
unfolding scan_layers opaque_layers
scan_layers-first_two ppu line x flags =
    let layers = λ (prio : ℕ). somes (layers_of ppu line x flags prio) in
    let scan = scan_prio ppu line x flags in
    let step = scan_prio-first_two ppu line x flags in
    ap (λ s. scan 3 (scan 2 (scan 1 s))) (at_start ppu line x flags)
    ∙ ap (λ s. scan 3 (scan 2 s)) (step 1 (layers 0))
    ∙ ap (λ s. scan 3 s) (step 2 (layers 0 ++ layers 1))
    ∙ step 3 (layers 0 ++ layers 1 ++ layers 2)
