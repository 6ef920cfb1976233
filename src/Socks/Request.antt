-- ===== src/Socks/Request.antt =====
-- project4/socks_server.cpp, `session`: the fields of `socks_info` and `SOCKS4_parser`.
use network_programming_demo.Prelude.{
  ℕ, ◌+◌, ◌*◌, [], ◌∷◌, ◌++◌, Option, none, some, ◌>>=◌, Bool, true, false, ◌==◌, if◌then◌else◌,
}
use network_programming_demo.Text.Bytes.{Bytes}
use network_programming_demo.Text.Decimal.{to_string}

-- The keys that the session sets in its map; a key never set reads as the empty text.
pub record SocksInfo : Type 0 where
  pub src_ip : Bytes
  pub src_port : Bytes
  pub cd : Bytes
  pub dst_port : Bytes
  pub dst_ip : Bytes
  pub user_id : Bytes
  pub domain_name : Bytes

-- `for (; data_[i] != '\0'; i++) text += data_[i];` with the bytes behind the NUL; `none` is a read
-- past the end of the buffer.
unfoldable pub read_text : Bytes → Option (Bytes × Bytes)
read_text [] = none
read_text (c ∷ s) =
    if c == 0
    then some ([], s)
    else (elim (read_text s) [ none ↦ none | some (t, r) ↦ some (c ∷ t, r) ])

abbrev pub dotted : ℕ → ℕ → ℕ → ℕ → Bytes
dotted a b c d = to_string a ++ b'.' ∷ (to_string b ++ b'.' ∷ (to_string c ++ b'.' ∷ to_string d))

abbrev pub is_empty : Bytes → Bool
is_empty [] = true
is_empty (_ ∷ _) = false

-- boost's `resolver_.resolve(query(host, port))`: the address of the first endpoint as text; `none`
-- is its exception.
module _ (resolve : Bytes → Bytes → Option Bytes) where
  -- The request in the buffer, `none` where the parser reads past it or the resolver throws.
  unfoldable pub socks4_parser : Bytes → SocksInfo → Option SocksInfo
  unfolding read_text
  socks4_parser (vn ∷ cd ∷ p ∷ q ∷ a ∷ b ∷ c ∷ d ∷ rest) info = do
    (user, behind) ← read_text rest
    (domain, _) ← read_text behind
    let port = to_string (p * 256 + q)
    let literal = dotted a b c d
    address ← resolve (if is_empty domain then literal else domain) port
    some (record info {
      cd = to_string cd;
      dst_port = port;
      dst_ip = address;
      user_id = user;
      domain_name = domain;
    })
  socks4_parser _ info = none
