-- ===== src/Dsp/Backend.antt =====
-- The kernel backends of core/dsp/src/backend.rs. The C++ backend calls a foreign library.
use aeryon.Base.{ℕ, ◌-◌, ◌<◌, Bool, true, Option, none, List, length}
use aeryon.Base.Text.{Str, codes}
use aeryon.Base.Outcomes.{Outcome, Returns}
use aeryon.Base.Floats.{F64}
use aeryon.Dsp.Errors.{DspError, DspBackendKind, rust}
use aeryon.Dsp.Kernels
use aeryon.Dsp.Kernels.Totality.{IsSeries, motion_energy_link_total, center_and_apply_hann_total}

pub record DspBackendIdentity : Type 0 where
  pub kind : DspBackendKind
  pub implementation_version : Str
  pub abi_version : Option ℕ
  pub build_available : Bool
  pub display_name : Str

-- The trait `DspKernelBackend`.
pub record DspKernelBackend : Type 0 where
  pub identity : DspBackendIdentity
  pub motion_energy :
      (real_samples imag_samples : List ℕ)
      → (frame_count subcarrier_count : ℕ) → Outcome DspError (List ℕ)
  pub center_and_apply_hann : List ℕ → Outcome DspError (List ℕ)

abbrev pub rust_identity : DspBackendIdentity
rust_identity = record {
  kind = rust;
  implementation_version = codes "1.0.0";
  abi_version = none;
  build_available = true;
  display_name = codes "Rust reference backend";
}

abbrev pub rust_backend : ⦃o : F64⦄ → DspKernelBackend
rust_backend = record {
  identity = rust_identity;
  motion_energy = Kernels.motion_energy_link;
  center_and_apply_hann = Kernels.center_and_apply_hann;
}

-- What the trait's documentation asks of a backend: it does not panic, and what it returns is finite
-- and has the documented length.
pub record IsSound (b : DspKernelBackend) : Type 0 where
  pub motion_energy :
      (real imag : List ℕ) (frames w : ℕ)
      → Returns (λ vs. (1 < frames) × IsSeries (frames - 1) vs) (b.motion_energy real imag frames w)
  pub center_and_apply_hann :
      (signal : List ℕ) → Returns (IsSeries (length signal)) (b.center_and_apply_hann signal)

pub rust_backend-IsSound : ⦃o : F64⦄ → IsSound rust_backend
rust_backend-IsSound = record {
  motion_energy = motion_energy_link_total;
  center_and_apply_hann = center_and_apply_hann_total;
}
