-- ===== src/Dispatch/Cases.antt =====
-- Reasoning on `dispatch` of crates/luminal-vgd-driver/src/dispatch.rs by its arms.
use luminal_vgd.Prelude.{
  ℕ, Bool, true, false, Option, some, none, [], if◌then◌else◌, ◌≡◌, refl, arith,
}
use luminal_vgd.Prelude.Bytes.{Bytes}
use luminal_vgd.Proto.Ioctl
use luminal_vgd.Edid.{EdidParams}
use luminal_vgd.Dispatch.State.{DeviceState, HandleCtx, Outcome, unknown_code}
use luminal_vgd.Dispatch.Handlers.{
  on_handshake, on_ping, on_destroy, on_query_lease, on_set_render_adapter, on_query_pool,
  on_get_status,
}
use luminal_vgd.Dispatch.Updates.{on_update_modes}
use luminal_vgd.Dispatch.Main.{on_create, on_set_pool, dispatch}

pub if-arms {ℓ} :
    {A : Type ℓ} (P : A → Type 0) (b : Bool) (x y : A)
    → (b ≡ true → P x)
    → P y
    → P (if b then x else y)
if-arms P true x y p q = p refl
if-arms P false x y p q = q

-- What holds of every arm holds of `dispatch`.
pub dispatch-arms :
    (generate : EdidParams → Bytes) (dev : DeviceState) (handle : HandleCtx) (token now ioctl : ℕ)
    (input : Bytes) (out_len : ℕ) (P : Option Outcome → Type 0)
    → (ioctl ≡ Ioctl.ioctl_handshake → P (some (on_handshake dev handle input out_len)))
    → P (on_create generate dev handle now input out_len)
    → P (some (on_destroy dev handle input out_len))
    → P (on_update_modes dev handle token input out_len)
    → P (some (on_ping dev handle now input out_len))
    → P (some (on_query_lease dev handle now input out_len))
    → P (some (on_set_render_adapter dev handle input out_len))
    → P (on_set_pool generate dev handle now input out_len)
    → P (some (on_query_pool dev handle out_len))
    → P (on_get_status dev handle now out_len)
    → P (
        some (record {
          dev = dev;
          handle = handle;
          result = record { status = unknown_code; bytes_written = 0; effects = [] };
          reply = none;
        }))
    → P (dispatch generate dev handle token now ioctl input out_len)
unfolding dispatch
dispatch-arms generate dev handle token now ioctl input out_len P a b c d e f g h i j k =
    if-arms P _ _ _ (λ q. a (ground arith))
      (arm _ _ _ b (
        arm _ _ _ c (
          arm _ _ _ d
            (arm _ _ _ e (arm _ _ _ f (arm _ _ _ g (arm _ _ _ h (arm _ _ _ i (arm _ _ _ j k)))))))))
  where
    arm : (b : Bool) (x y : Option Outcome) → P x → P y → P (if b then x else y)
    arm b x y p q = if-arms P b x y (λ _. p) q
