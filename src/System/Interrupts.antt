-- ===== src/System/Interrupts.antt =====
-- system/saminterrupt.c: the interrupt lines of the modules.
use samlibs.Base.{ℕ, ◌+◌, Bool, true, false, if◌then◌else◌, ltb, ◌==◌}

pub data Module : Type 0 where
  sercom tc : ℕ → Module
  other : Module

-- The device families with a table. The names of the lines are the device pack's.
pub data Family : Type 0 where
  sam_x5x samd20 samc20 : Family

pub record Lines : Type 0 where
  pub sercom_irq : ℕ → ℕ
  pub tc_irq : ℕ → ℕ
  pub non_maskable : ℕ
  pub num_sercoms : ℕ

abbrev pub line_if : Bool → ℕ → ℕ → ℕ
line_if present l line = if present then line else l

pub get_module_interrupt : Lines → Family → Module → ℕ
get_module_interrupt l sam_x5x (sercom n) =
    line_if (ltb n l.num_sercoms) l.non_maskable (l.sercom_irq n)
get_module_interrupt l sam_x5x (tc n) = l.non_maskable
get_module_interrupt l sam_x5x other = l.non_maskable
get_module_interrupt l samd20 (sercom n) = line_if (ltb n 6) l.non_maskable (l.sercom_irq n)
get_module_interrupt l samd20 (tc n) = l.non_maskable
get_module_interrupt l samd20 other = l.non_maskable
get_module_interrupt l samc20 (sercom n) = line_if (ltb n 4) l.non_maskable (l.sercom_irq n)
get_module_interrupt l samc20 (tc n) = line_if (ltb n 5) l.non_maskable (l.tc_irq n)
get_module_interrupt l samc20 other = l.non_maskable

-- The lines that the NVIC has enabled and that are pending, and their priorities.
pub record Nvic : Type 0 where
  pub enabled : ℕ → Bool
  pub pending : ℕ → Bool
  pub priority : ℕ → ℕ

abbrev pub at {ℓ} : {A : Type ℓ} → (ℕ → A) → ℕ → A → ℕ → A
at f line v j = if j == line then v else f j

pub enable_module_sub_interrupt : Lines → Family → Module → ℕ → Nvic → Nvic
enable_module_sub_interrupt l f m offset n = record n {
  enabled = at n.enabled (get_module_interrupt l f m + offset) true;
}

pub disable_module_sub_interrupt : Lines → Family → Module → ℕ → Nvic → Nvic
disable_module_sub_interrupt l f m offset n = record n {
  enabled = at n.enabled (get_module_interrupt l f m + offset) false;
}

pub enable_module_interrupt : Lines → Family → Module → Nvic → Nvic
enable_module_interrupt l f m n = record n {
  enabled = at n.enabled (get_module_interrupt l f m) true;
}

pub disable_module_interrupt : Lines → Family → Module → Nvic → Nvic
disable_module_interrupt l f m n = record n {
  enabled = at n.enabled (get_module_interrupt l f m) false;
}

pub clear_pending_module_interrupt : Lines → Family → Module → Nvic → Nvic
clear_pending_module_interrupt l f m n = record n {
  pending = at n.pending (get_module_interrupt l f m) false;
}

pub set_module_sub_interrupt_priority : Lines → Family → Module → ℕ → ℕ → Nvic → Nvic
set_module_sub_interrupt_priority l f m offset p n = record n {
  priority = at n.priority (get_module_interrupt l f m + offset) p;
}

pub set_module_interrupt_priority : Lines → Family → Module → ℕ → Nvic → Nvic
set_module_interrupt_priority l f m p n = record n {
  priority = at n.priority (get_module_interrupt l f m) p;
}
