-- ===== src/Addresses.antt =====
-- 11_Network/addr.c: the parts of an internet address, on a machine whose lowest byte comes first.
pub mod Bits
pub mod Bytes
pub mod Joined
mod Tests
use linux_unix_development.Common.{
  ℕ, ◌+◌, ◌-◌, ◌*◌, ◌/◌, ◌%◌, Option, none, some, List, [], ◌∷◌, ◌++◌, ltb, ◌==◌, if◌then◌else◌,
}
use Prim.Native.Nat.{bit_or}

-- ntohl, and htonl: the four bytes in the other order.
pub ntohl : ℕ → ℕ
ntohl n = n % 256 * 16777216 + n / 256 % 256 * 65536 + n / 65536 % 256 * 256 + n / 16777216 % 256

-- inet_netof: the number of the network, as the class of the address says.
pub inet_netof : (s_addr : ℕ) → ℕ
inet_netof s_addr =
    let h = ntohl s_addr in
    if ltb h 2147483648 then h / 16777216 else if ltb h 3221225472 then h / 65536 else h / 256

-- inet_lnaof: the rest of the address.
pub inet_lnaof : (s_addr : ℕ) → ℕ
inet_lnaof s_addr =
    let h = ntohl s_addr in
    if ltb h 2147483648 then h % 16777216 else if ltb h 3221225472 then h % 65536 else h % 256

-- inet_makeaddr
pub inet_makeaddr : (net host : ℕ) → ℕ
inet_makeaddr net host = ntohl (
    if ltb net 128
    then bit_or (net * 16777216) (host % 16777216)
    else if ltb net 65536
    then bit_or (net * 65536) (host % 65536)
    else if ltb net 16777216
    then bit_or (net * 256) (host % 256)
    else bit_or net host)

-- What is printed: the text that was given, an address with dots, and numbers; %d takes the 32 bits with
-- a sign, here the number and whether it is below zero.
pub data Line : Type 0 where
  text : List ℕ → Line
  dotted : (s_addr : ℕ) → Line
  unsigned : ℕ → Line
  below_zero : ℕ → Line

abbrev pub signed : ℕ → Line
signed n = if ltb n 2147483648 then unsigned n else below_zero (4294967296 - n)

-- The functions, on what inet_aton gives.
pub ip_adressen : (ip_addr : List ℕ) → Option ℕ → List Line
ip_adressen ip_addr none = []
ip_adressen ip_addr (some ip) = text ip_addr ∷ unsigned ip ∷ dotted ip ∷ []

-- ntohl(inet_netof(ip) << 8); the shift is one of 32 bits.
pub net_num : (ip : ℕ) → ℕ
net_num ip = ntohl (inet_netof ip * 256 % 4294967296)

pub ip_netzwerk : Option ℕ → List Line
ip_netzwerk none = []
ip_netzwerk (some ip) =
    if inet_netof ip == 0
    then []
    else unsigned (inet_netof ip)
      ∷ dotted (net_num ip)
      ∷ unsigned (net_num ip)
      ∷ signed (inet_makeaddr (ntohl (net_num ip)) 0)
      ∷ []

pub lokal_num : (ip : ℕ) → ℕ
lokal_num ip = ntohl (inet_lnaof ip)

pub ip_lokal : Option ℕ → List Line
ip_lokal none = []
ip_lokal (some ip) =
    dotted (lokal_num ip)
    ∷ unsigned (lokal_num ip)
    ∷ unsigned (inet_makeaddr 0 (ntohl (lokal_num ip)))
    ∷ []

pub zusammen_ip : (ip : ℕ) → ℕ
zusammen_ip ip = inet_makeaddr (ntohl (net_num ip)) (ntohl (lokal_num ip))

pub ip_zusammen : Option ℕ → List Line
ip_zusammen none = []
ip_zusammen (some ip) =
    dotted (lokal_num ip)
    ∷ unsigned (lokal_num ip)
    ∷ dotted (net_num ip)
    ∷ unsigned (net_num ip)
    ∷ dotted (zusammen_ip ip)
    ∷ unsigned (zusammen_ip ip)
    ∷ []

-- main on its arguments, over inet_aton; without exactly one argument it prints its usage only.
pub addr_main : (inet_aton : List ℕ → Option ℕ) → List (List ℕ) → List Line
addr_main inet_aton [] = []
addr_main inet_aton (name ∷ []) = []
addr_main inet_aton (name ∷ ptr ∷ []) =
    ip_adressen ptr (inet_aton ptr)
    ++ ip_netzwerk (inet_aton ptr)
    ++ ip_lokal (inet_aton ptr)
    ++ ip_zusammen (inet_aton ptr)
addr_main inet_aton (name ∷ ptr ∷ x ∷ more) = []
