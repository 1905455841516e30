-- ===== src/Aml/Ports.antt =====
-- `NoccioloAmlHandler` on ports and on the configuration space. The ports are a parameter.
use nocciolo.Base.{ℕ, ◌*◌, ◌^◌, bit_and, bit_or}

-- The input and output instructions, of a width in bits, with the state behind the ports.
pub record Ports : Type 1 where
  pub State : Type 0
  pub input : ℕ → State → ℕ → ℕ × State
  pub output : ℕ → State → ℕ → ℕ → State

pub record PciRequest : Type 0 where
  pub segment : ℕ
  pub bus : ℕ
  pub device : ℕ
  pub function : ℕ
  pub offset : ℕ

pub address : PciRequest → ℕ
address r =
    bit_or
      (bit_or (bit_or (bit_or (r.bus * 2 ^ 16) (r.device * 2 ^ 11)) (r.function * 2 ^ 8))
        (bit_and r.offset 0xFC))
      0x80000000

module _ (P : Ports) where
  open P use {State, input, output}

  pub aml_read_pci : ℕ → PciRequest → State → ℕ × State
  unfolding address
  aml_read_pci bits request s = input bits (output 32 s 0xCF8 (address request)) 0xCF8

  -- The write is traced and not made.
  pub aml_write_pci : ℕ → PciRequest → ℕ → State → State
  aml_write_pci bits request value s = s

  pub aml_read_port : ℕ → ℕ → State → ℕ × State
  aml_read_port bits port s = input bits s port

  pub aml_write_port : ℕ → ℕ → ℕ → State → State
  aml_write_port bits port value s = output bits s port value

  pub read_io_u8 : ℕ → State → ℕ × State
  unfolding aml_read_port
  read_io_u8 port s = aml_read_port 8 port s

  pub read_io_u16 : ℕ → State → ℕ × State
  unfolding aml_read_port
  read_io_u16 port s = aml_read_port 16 port s

  pub read_io_u32 : ℕ → State → ℕ × State
  unfolding aml_read_port
  read_io_u32 port s = aml_read_port 32 port s

  pub write_io_u8 : ℕ → ℕ → State → State
  unfolding aml_write_port
  write_io_u8 port value s = aml_write_port 8 port value s

  pub write_io_u16 : ℕ → ℕ → State → State
  unfolding aml_write_port
  write_io_u16 port value s = aml_write_port 16 port value s

  pub write_io_u32 : ℕ → ℕ → State → State
  unfolding aml_write_port
  write_io_u32 port value s = aml_write_port 32 port value s

  pub read_pci_u8 : PciRequest → State → ℕ × State
  unfolding aml_read_pci
  read_pci_u8 request s = aml_read_pci 8 request s

  pub read_pci_u16 : PciRequest → State → ℕ × State
  unfolding aml_read_pci
  read_pci_u16 request s = aml_read_pci 16 request s

  pub read_pci_u32 : PciRequest → State → ℕ × State
  unfolding aml_read_pci
  read_pci_u32 request s = aml_read_pci 32 request s

  pub write_pci_u8 : PciRequest → ℕ → State → State
  unfolding aml_write_pci
  write_pci_u8 request value s = aml_write_pci 8 request value s

  pub write_pci_u16 : PciRequest → ℕ → State → State
  unfolding aml_write_pci
  write_pci_u16 request value s = aml_write_pci 16 request value s

  pub write_pci_u32 : PciRequest → ℕ → State → State
  unfolding aml_write_pci
  write_pci_u32 request value s = aml_write_pci 32 request value s
