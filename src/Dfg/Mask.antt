-- ===== src/Dfg/Mask.antt =====
-- libaftermath-core/src/dfg_node.h: the port masks, four words with a bit for each port of a node.
use aftermath.Base.{ℕ, Bool, ◌&&◌, ◌==◌}
use aftermath.Dfg.Bits.{and64, or64, xor64}

-- `struct am_dfg_port_mask`
pub record PortMask : Type 0 where
  pub pull_new : ℕ
  pub pull_old : ℕ
  pub push_new : ℕ
  pub push_old : ℕ

-- am_dfg_port_mask_reset
unfoldable pub reset : PortMask
reset = record { pull_new = 0; pull_old = 0; push_new = 0; push_old = 0 }

-- am_dfg_port_mask_copy; the result is the new `dst`.
unfoldable pub copy : PortMask → PortMask → PortMask
copy dst src = src

-- am_dfg_port_mask_apply; the result is the new `dst`.
unfoldable pub apply : PortMask → PortMask → PortMask
apply dst src = record {
  pull_new = or64 dst.pull_new src.pull_new;
  pull_old = or64 dst.pull_old src.pull_old;
  push_new = or64 dst.push_new src.push_new;
  push_old = or64 dst.push_old src.push_old;
}

-- am_dfg_port_mask_diff; the result is the new `dst`.
unfoldable pub diff : PortMask → PortMask → PortMask
diff a b = record {
  pull_new = xor64 a.pull_new b.pull_new;
  pull_old = xor64 a.pull_old b.pull_old;
  push_new = xor64 a.push_new b.push_new;
  push_old = xor64 a.push_old b.push_old;
}

-- am_dfg_port_mask_is_subset
unfoldable pub is_subset : PortMask → PortMask → Bool
is_subset sup sub =
    (and64 sub.pull_new sup.pull_new == sub.pull_new)
    && (and64 sub.pull_old sup.pull_old == sub.pull_old)
    && (and64 sub.push_new sup.push_new == sub.push_new)
    && (and64 sub.push_old sup.push_old == sub.push_old)
