-- ===== src/Addresses/Tests.antt =====
-- An address of each class.
use linux_unix_development.Common.{◌≡◌, arith}
use linux_unix_development.Addresses.{zusammen_ip}
use linux_unix_development.Addresses.Bytes.{quad, AreBytes}
use linux_unix_development.Addresses.Joined.{zusammen_ip-classes}

local_address : AreBytes 172 16 3 4
local_address = record {
  a_byte = omega arith;
  b_byte = omega arith;
  c_byte = omega arith;
  d_byte = omega arith;
}

zusammen_ip-classes_example : zusammen_ip (quad 172 16 3 4) ≡ quad 172 16 0 4
zusammen_ip-classes_example = zusammen_ip-classes 172 16 3 4 local_address (omega arith)
