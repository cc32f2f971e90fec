-- ===== src/Storage/Network/Init.antt =====
-- `parse_address_param` and `network_init` of src/storage.c. The static `socket` is an argument and a
-- result. Whether kstrdup has memory, and what kstrtol makes of a string, with what the port held
-- before, are the kernel's answers.
use netmalloc.Common.{
  ℕ, ◌+◌, ◌-◌, ◌*◌, ◌<◌, ◌≤◌, ◌≡◌, ◌⊎◌, refl, sym, Bool, true, false, Option, none, some, List, [],
  ◌∷◌, ◌++◌, arith, ◌==◌, if◌then◌else◌, length, length-append, take, take-length_le, ℤ, pos,
  enomem, minus_one, is_nonzero,
}
use netmalloc.Socket.{SocketKernel, socket_init, server_address, htons}
use netmalloc.Socket.Address.{decimal, dotted_byte, dotted, inet_addr-dotted}
use netmalloc.Socket.Init.{IsSocketKernel, Connected, socket_init-Connected}

pub record Strings : Type 0 where
  pub kstrdup : Bool
  pub kstrtol : List ℕ → ℕ → ℤ × ℕ

abbrev pub colon : ℕ
colon = 58

-- The token of strsep with the delimiter `:`, and the string behind the delimiter or NULL.
unfoldable pub strsep : List ℕ → List ℕ × Option (List ℕ)
strsep [] = ([], none)
strsep (c ∷ s) =
    let (token, rest) = strsep s in if c == colon then ([], some s) else (c ∷ token, rest)

-- `ret` and the port, for the string behind the colon.
abbrev pub parse_port : Strings → Option (List ℕ) → ℕ → ℤ × ℕ
parse_port k none port = (minus_one, port)
parse_port k (some s) port = k.kstrtol s port

-- The result, what `host` holds, and the port.
unfoldable pub parse_address_param : Strings → List ℕ → List ℕ → ℕ → ℕ → ℤ × List ℕ × ℕ
unfolding strsep
parse_address_param k address host size port =
    if k.kstrdup
    then (let (token, rest) = strsep address in
        let (ret, read) = parse_port k rest port in (ret, take (size - 1) token, read))
    else (enomem, host, port)

module _ {Buffer World : Type 0} (kernel : SocketKernel Buffer World) where
  -- `port` is what the local holds before, and `locals` those of `inet_addr`.
  unfoldable pub network_init : Strings → World → ℕ → List ℕ → ℕ → ℕ × ℕ × ℕ × ℕ → World × ℕ × ℤ
  unfolding parse_address_param
  network_init k world socket param port locals =
      let (error, host, port) = parse_address_param k param [] 16 port in
      if is_nonzero error
      then (world, socket, error)
      else socket_init kernel world socket host port locals

strsep-decimal :
    (n : ℕ) (s : List ℕ)
    → n < 256
    → strsep (decimal n ++ s) ≡ (decimal n ++ (strsep s).0, (strsep s).1)
unfolding strsep decimal
strsep-decimal n s h = ground arith

strsep-dotted_byte :
    (n : ℕ) (s : List ℕ)
    → n < 256
    → strsep (dotted_byte n s) ≡ (dotted_byte n (strsep s).0, (strsep s).1)
unfolding strsep
strsep-dotted_byte n s h = rw (strsep-decimal n s h) refl

strsep-colon : (s : List ℕ) → strsep (colon ∷ s) ≡ ([], some s)
unfolding strsep
strsep-colon s = refl

strsep-dotted :
    (a b c d : ℕ) (s : List ℕ)
    → a < 256
    → b < 256
    → c < 256
    → d < 256
    → strsep (dotted a b c d (colon ∷ s)) ≡ (dotted a b c d [], some s)
strsep-dotted a b c d s ha hb hc hd =
    rw
      (
        strsep-decimal a (dotted_byte b (dotted_byte c (dotted_byte d (colon ∷ s)))) ha,
        strsep-dotted_byte b (dotted_byte c (dotted_byte d (colon ∷ s))) hb,
        strsep-dotted_byte c (dotted_byte d (colon ∷ s)) hc,
        strsep-dotted_byte d (colon ∷ s) hd,
        strsep-colon s,
      )
      refl

length-decimal : (n : ℕ) → length (decimal n) ≤ 3
unfolding decimal
length-decimal n = ground arith

length-dotted_byte : (n : ℕ) (s : List ℕ) → length (dotted_byte n s) ≤ 4 + length s
length-dotted_byte n s = omega (arith, length-append (decimal n) s, length-decimal n)

length-dotted : (a b c d : ℕ) → length (dotted a b c d []) ≤ 15
length-dotted a b c d = omega (
  arith,
  length-append (decimal a) (dotted_byte b (dotted_byte c (dotted_byte d []))),
  length-decimal a,
  length-dotted_byte b (dotted_byte c (dotted_byte d [])),
  length-dotted_byte c (dotted_byte d []),
  length-dotted_byte d [],
)

-- The module parameter `a.b.c.d:port`, whose port kstrtol reads.
parse_address_param-dotted :
    (k : Strings) (a b c d : ℕ) (text : List ℕ) (old : ℕ)
    → a < 256
    → b < 256
    → c < 256
    → d < 256
    → k.kstrdup ≡ true
    → parse_address_param k (dotted a b c d (colon ∷ text)) [] 16 old
      ≡ ((k.kstrtol text old).0, dotted a b c d [], (k.kstrtol text old).1)
unfolding parse_address_param
parse_address_param-dotted k a b c d text old ha hb hc hd h =
    rw
      (
        h,
        strsep-dotted a b c d text ha hb hc hd,
        take-length_le 15 (dotted a b c d []) (length-dotted a b c d),
      )
      refl

module _ {Buffer World : Type 0} {kernel : SocketKernel Buffer World}
    (laws : IsSocketKernel kernel) where
  -- For a parameter that is four bytes in dotted notation, a colon, and a text that kstrtol reads as a
  -- port, `network_init` opens one socket, connected to exactly that address and port in network
  -- order, or returns an error and leaves no socket open that it opened.
  pub network_init-Connected :
      (k : Strings) (w : World) (p a b c d : ℕ) (text : List ℕ) (old port : ℕ)
      (locals : ℕ × ℕ × ℕ × ℕ)
      → a < 256
      → b < 256
      → c < 256
      → d < 256
      → k.kstrdup ≡ true
      → k.kstrtol text old ≡ (pos 0, port)
      → Connected laws w
          (record {
            sin_family = 2;
            sin_port = htons port;
            s_addr = a + 256 * (b + 256 * (c + 256 * d));
          })
          (network_init kernel k w p (dotted a b c d (colon ∷ text)) old locals)
  unfolding network_init server_address
  network_init-Connected k w p a b c d text old port locals ha hb hc hd h e =
      rw
        (
          parse_address_param-dotted k a b c d text old ha hb hc hd h,
          e,
          sym (inet_addr-dotted a b c d locals.0 locals.1 locals.2 locals.3 ha hb hc hd),
        )
        (socket_init-Connected laws w p (dotted a b c d []) port locals)

  -- `network_init` fails without a change of its socket or of the kernel's when kstrdup has no memory,
  -- when the parameter has no colon, and when kstrtol does not read the port.
  pub network_init-error :
      (k : Strings) (w : World) (p : ℕ) (param : List ℕ) (old : ℕ) (locals : ℕ × ℕ × ℕ × ℕ)
      → (k.kstrdup ≡ false)
        ⊎ ((strsep param).1 ≡ none)
        ⊎ ((text : List ℕ) × ((strsep param).1 ≡ some text)
            × (is_nonzero (k.kstrtol text old).0 ≡ true))
      → let r = network_init kernel k w p param old locals in
        (r.0 ≡ w) × (r.1 ≡ p) × (is_nonzero r.2 ≡ true)
  unfolding network_init parse_address_param
  network_init-error k w p param old locals h = ground (arith, h)
