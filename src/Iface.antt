-- ===== src/Iface.antt =====
-- csp_interface.h: an interface. It is a struct of the caller, known by its address: `ptr` here.
use libcsp_dphi.Base.{ℕ, Option, List}

-- csp_iface_t. The link to the next interface is the place in the list of `Iflist`.
pub record Iface : Type 0 where
  pub ptr : ℕ
  pub addr : ℕ
  pub netmask : ℕ
  pub name : Option (List ℕ)
  pub is_default : ℕ
  pub tx : ℕ
  pub rx : ℕ
  pub tx_error : ℕ
  pub rx_error : ℕ
  pub drop : ℕ
  pub autherr : ℕ
  pub frame : ℕ
  pub txbytes : ℕ
  pub rxbytes : ℕ
  pub irq : ℕ
