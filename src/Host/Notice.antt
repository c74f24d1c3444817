-- ===== src/Host/Notice.antt =====
-- crates/luminal-vgd-host/src/notice.rs: the status notices of capture-mode changes.
use Prim.Native.String.{String}
use luminal_vgd.Prelude.{Option, none, some}
use luminal_vgd.Prelude.Int.{ℤ}

pub data NoticeChannel : Type 0 where
  host_ui_only : NoticeChannel

pub data FallbackReason : Type 0 where
  driver_absent : FallbackReason
  -- with the code
  handshake_failed create_failed : ℤ → FallbackReason
  heartbeat_stale ring_rebuilding ring_dead direct_starvation wgc_starvation mode_change :
      FallbackReason

pub data NoticeKind : Type 0 where
  fell_back_to_wgc direct_restored fell_back_to_dda session_failed : NoticeKind

pub record Notice : Type 0 where
  pub kind : NoticeKind
  pub channel : NoticeChannel
  pub reason : Option FallbackReason
  pub text : String

abbrev pub fell_back_text : String
fell_back_text =
    "Direct encoding is temporarily unavailable. LuminalShine has fallen back to Windows Graphics Capture and will try restoring direct encoding as soon as possible."

abbrev pub restored_text : String
restored_text = "Direct encoding restored."

abbrev pub dda_text : String
dda_text =
    "Windows Graphics Capture is unavailable. LuminalShine is using Desktop Duplication until capture can be restored."

abbrev pub failed_text : String
failed_text =
    "Capture failed and could not be recovered. The session was ended; a log bundle has been written."

unfoldable pub fell_back : FallbackReason → Notice
fell_back reason = record {
  kind = fell_back_to_wgc;
  channel = host_ui_only;
  reason = some reason;
  text = fell_back_text;
}

unfoldable pub restored : Notice
restored = record {
  kind = direct_restored;
  channel = host_ui_only;
  reason = none;
  text = restored_text;
}

unfoldable pub dda : FallbackReason → Notice
dda reason = record {
  kind = fell_back_to_dda;
  channel = host_ui_only;
  reason = some reason;
  text = dda_text;
}

unfoldable pub failed : FallbackReason → Notice
failed reason = record {
  kind = session_failed;
  channel = host_ui_only;
  reason = some reason;
  text = failed_text;
}
