-- ===== src/Apic/Io/Examples.antt =====
-- One redirection entry of the I/O APIC.
use nocciolo.Base.{◌+◌, ◌*◌, ◌^◌, ◌≡◌, ok, false, arith}
use nocciolo.Apic.Io.{
  IoApicRedirectionEntry, fixed, logical, idle, high_active, edge_sensitive, unmasked,
  logical_set_of_processors, decode_entry, encode_lo, encode_hi,
}
use nocciolo.Apic.Io.Entries.{decode_entry-encode}

abbrev timer_entry : IoApicRedirectionEntry
timer_entry = record {
  vector = 0x27;
  delivery_mode = fixed;
  destination_mode = logical;
  delivery_status = idle;
  polarity = high_active;
  remote_irr = false;
  trigger_mode = edge_sensitive;
  mask = unmasked;
  destination = logical_set_of_processors 0xff;
}

decode_entry-encode_example :
    decode_entry (encode_hi timer_entry * 2 ^ 32 + encode_lo timer_entry) ≡ ok timer_entry
decode_entry-encode_example =
    decode_entry-encode timer_entry (record { vector = omega arith; destination = omega arith })
