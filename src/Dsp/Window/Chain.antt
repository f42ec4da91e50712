-- ===== src/Dsp/Window/Chain.antt =====
-- Sequences of frames in which each is related to the one before.
use aeryon.Base.{ℕ, zero, suc, Option, none, some, List, [], ◌∷◌, ◌++◌, drop, last?}
use aeryon.Calibration.Frame.{CalibratedCsiFrame}
use aeryon.Dsp.Window.Validity.{Chain}

module _ (R : CalibratedCsiFrame → CalibratedCsiFrame → Type 0) where
  -- `f` may come after the last frame, if there is one.
  abbrev pub After : Option CalibratedCsiFrame → CalibratedCsiFrame → Type 0
  After none f = Unit
  After (some p) f = R p f

  Chain-snoc_some :
      (p : CalibratedCsiFrame) (fs : List CalibratedCsiFrame) (f : CalibratedCsiFrame)
      → Chain R (some p) fs
      → After (last? (p ∷ fs)) f
      → Chain R (some p) (fs ++ (f ∷ []))
  Chain-snoc_some p [] f c h = (h, tt)
  Chain-snoc_some p (g ∷ fs) f c h = (c.0, Chain-snoc_some g fs f c.1 h)

  pub Chain-snoc :
      (fs : List CalibratedCsiFrame) (f : CalibratedCsiFrame)
      → Chain R none fs
      → After (last? fs) f
      → Chain R none (fs ++ (f ∷ []))
  Chain-snoc [] f c h = tt
  Chain-snoc (g ∷ fs) f c h = Chain-snoc_some g fs f c h

  Chain-none :
      (p : CalibratedCsiFrame) (fs : List CalibratedCsiFrame)
      → Chain R (some p) fs
      → Chain R none fs
  Chain-none p [] c = tt
  Chain-none p (f ∷ fs) c = c.1

  pub Chain-drop :
      (n : ℕ) (fs : List CalibratedCsiFrame) → Chain R none fs → Chain R none (drop n fs)
  Chain-drop zero fs c = c
  Chain-drop (suc n) [] c = tt
  Chain-drop (suc n) (f ∷ fs) c = Chain-drop n fs (Chain-none f fs c)

module _ (R S : CalibratedCsiFrame → CalibratedCsiFrame → Type 0)
    (weaken : (p f : CalibratedCsiFrame) → R p f → S p f) where
  pub Chain-mono :
      (p : Option CalibratedCsiFrame) (fs : List CalibratedCsiFrame) → Chain R p fs → Chain S p fs
  Chain-mono none [] c = tt
  Chain-mono (some p) [] c = tt
  Chain-mono none (f ∷ fs) c = Chain-mono (some f) fs c
  Chain-mono (some p) (f ∷ fs) c = (weaken p f c.0, Chain-mono (some f) fs c.1)
