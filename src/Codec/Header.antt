-- ===== src/Codec/Header.antt =====
-- protocol/mTcpProto.h: the packed 26-byte header, its constants, and its network byte order.
use own_game_server.Prelude.{
  ℕ, ◌+◌, ◌%◌, ◌<◌, ◌≡◌, refl, List, [], ◌∷◌, arith, length, get_or, put16, put32, get16, get32,
  u16_mod, u32_mod, drop,
}

abbrev pub proto_header_size : ℕ
proto_header_size = 26

abbrev pub proto_magic : ℕ
proto_magic = 0x4812_3123

abbrev pub proto_version : ℕ
proto_version = 1

-- ProtoFlags
abbrev pub flag_fullmsg : ℕ
flag_fullmsg = 0

abbrev pub flag_fragmented : ℕ
flag_fragmented = 1

abbrev pub flag_checksum : ℕ
flag_checksum = 2

abbrev pub flag_endpart : ℕ
flag_endpart = 4

-- ProtoType
abbrev pub type_heartbeat : ℕ
type_heartbeat = 0

abbrev pub type_control : ℕ
type_control = 1

abbrev pub type_data : ℕ
type_data = 2

pub record ProtoHeader : Type 0 where
  pub header : ℕ
  pub version : ℕ
  pub proto_type : ℕ
  pub payload_len : ℕ
  pub flags : ℕ
  pub msg_id_high : ℕ
  pub msg_id_low : ℕ
  pub seq : ℕ
  pub total : ℕ
  pub checksum : ℕ

-- The header as memcpy writes it, before the bytes that follow it.
unfoldable pub put_header : ProtoHeader → List ℕ → List ℕ
put_header h rest = put32 h.header (
    h.version
    ∷ h.proto_type
    ∷ put16 h.payload_len (
        put16 h.flags (
          put32 h.msg_id_high
            (put32 h.msg_id_low (put16 h.seq (put16 h.total (put32 h.checksum rest)))))))

-- The header as the decoder reads it through a pointer to the first of 26 bytes.
unfoldable pub get_header : List ℕ → ProtoHeader
get_header bytes = record {
  header = get32 bytes 0;
  version = get_or bytes 4 0;
  proto_type = get_or bytes 5 0;
  payload_len = get16 bytes 6;
  flags = get16 bytes 8;
  msg_id_high = get32 bytes 10;
  msg_id_low = get32 bytes 14;
  seq = get16 bytes 18;
  total = get16 bytes 20;
  checksum = get32 bytes 22;
}

-- Each field but the checksum fits its width.
pub record IsWord (h : ProtoHeader) : Type 0 where
  pub header_bound : h.header < u32_mod
  pub payload_len_bound : h.payload_len < u16_mod
  pub flags_bound : h.flags < u16_mod
  pub msg_id_high_bound : h.msg_id_high < u32_mod
  pub msg_id_low_bound : h.msg_id_low < u32_mod
  pub seq_bound : h.seq < u16_mod
  pub total_bound : h.total < u16_mod

get16-put16 : (n : ℕ) (rest : List ℕ) → n < u16_mod → get16 (put16 n rest) 0 ≡ n
get16-put16 n rest h = omega arith

get32-put32 : (n : ℕ) (rest : List ℕ) → get32 (put32 n rest) 0 ≡ n % u32_mod
get32-put32 n rest = omega arith

-- What is written is read back; the checksum as the 32 bits that are written of it.
pub get_header-put_header :
    (h : ProtoHeader) (rest : List ℕ)
    → IsWord h
    → get_header (put_header h rest) ≡ record h { checksum = h.checksum % u32_mod }
unfolding get_header put_header
get_header-put_header h rest w = ground (
  arith,
  get32-put32 h.header [],
  get16-put16 h.payload_len [],
  get16-put16 h.flags [],
  get32-put32 h.msg_id_high [],
  get32-put32 h.msg_id_low [],
  get16-put16 h.seq [],
  get16-put16 h.total [],
  get32-put32 h.checksum [],
)

pub length-put_header :
    (h : ProtoHeader) (rest : List ℕ) → length (put_header h rest) ≡ proto_header_size + length rest
unfolding put_header
length-put_header h rest = omega arith

pub drop-put_header :
    (h : ProtoHeader) (rest : List ℕ) → drop proto_header_size (put_header h rest) ≡ rest
unfolding put_header
drop-put_header h rest = refl
