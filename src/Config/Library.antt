-- ===== src/Config/Library.antt =====
-- What internal/config calls of Go's larger parsers (time, net, net/url, net/mail) and of the
-- operating system: parameters of every definition that uses them.
use nexus_relay.Common.{ℕ, ◌≡◌, some, Bool, String, Option, List}

abbrev pub Bytes : Type 0
Bytes = List ℕ

-- The integers, for the results of the parsers: `negsuc n` is -(n + 1).
pub data ℤ : Type 0 where
  pos negsuc : ℕ → ℤ

-- url.Userinfo
pub record UserInfo : Type 0 where
  pub username : String
  pub password : Option String

-- url.URL
pub record Url : Type 0 where
  pub scheme : String
  pub opaque : String
  pub user : Option UserInfo
  pub host : String
  pub path : String
  pub raw_path : String
  pub force_query : Bool
  pub raw_query : String
  pub fragment : String

-- json.Token: a delimiter, a string, or a number, a Boolean or null; `broken` is an error of Token
pub data Token : Type 0 where
  open_object close_object open_array close_array : Token
  text : String → Token
  scalar broken : Token

-- the structs that JSON is decoded into; a ring without an epoch has 0 there
pub record RingWire : Type 0 where
  pub version : ℤ
  pub expected_epoch : ℤ
  pub active_key_id : String
  pub keys : List (String × String)

pub record CloudflareCredentials : Type 0 where
  pub account_tag : String
  pub tunnel_secret : String
  pub tunnel_id : String

pub record Library : Type 0 where
  -- time.ParseDuration and Duration.String, in nanoseconds
  pub parse_duration : String → Option ℤ
  pub duration_string : ℕ → String
  -- url.Parse, URL.String and URL.Hostname
  pub parse_url : String → Option Url
  pub url_string : Url → String
  pub hostname : Url → String
  -- whether net.ParseIP has an address, the network of net.ParseCIDR, net.JoinHostPort
  pub is_ip : String → Bool
  pub parse_cidr : String → Option String
  pub join_host_port : String → String → String
  -- the address of mail.ParseAddress
  pub parse_address : String → Option String
  -- strings.EqualFold
  pub equal_fold : String → String → Bool
  -- filepath.Clean
  pub clean_path : String → String
  -- filepath.Join of a directory and a name
  pub join_path : String → String → String
  -- base64.StdEncoding: Strict().DecodeString and EncodeToString
  pub decode_base64 : String → Option Bytes
  pub encode_base64 : Bytes → String
  -- json.Decoder: the tokens of a text up to its end or the first error, and Decode with
  -- DisallowUnknownFields into a struct, with whether only white space follows
  pub json_tokens : String → List Token
  pub decode_key_ring : String → Option (RingWire × Bool)
  pub decode_provider_key_ring : String → Option (RingWire × Bool)
  pub decode_cloudflare : String → Option (CloudflareCredentials × Bool)

-- time.ParseDuration reads what Duration.String prints, as its documentation says.
pub record ReadsDurations (go : Library) : Type 0 where
  pub read_back : (d : ℕ) → go.parse_duration (go.duration_string d) ≡ some (pos d)

-- The type bits of os.FileMode that the program reads.
pub data FileKind : Type 0 where
  regular symlink directory other : FileKind

-- os.FileInfo: the permission bits, and what os.SameFile compares
pub record FileInfo : Type 0 where
  pub kind : FileKind
  pub perm : ℕ
  pub identity : ℕ

-- The bytes of a file: a text in UTF-8, or that many bytes which are not UTF-8.
pub data Contents : Type 0 where
  utf8 : String → Contents
  not_utf8 : ℕ → Contents

-- An open file: `Stat` and the bytes that reading to the end gives, where `none` is an error, and the
-- error of `Close`.
pub record OpenFile : Type 0 where
  pub info : Option FileInfo
  pub contents : Option Contents
  pub close_error : Option String

-- os.Lstat, os.Stat, os.Open, the names of os.ReadDir, which are sorted, and whether runtime.GOOS is "windows"
pub record Host : Type 0 where
  pub lstat : String → Option FileInfo
  pub stat : String → Option FileInfo
  pub open_file : String → Option OpenFile
  pub read_dir : String → Option (List String)
  pub is_windows : Bool
