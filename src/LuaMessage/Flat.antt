-- ===== src/LuaMessage/Flat.antt =====
-- src/lc_message.c: the values of a message, described by the Lua values that they come from.
use casting.Base.{ℕ, ◌+◌, suc, ◌^◌, ◌<◌, ◌≢◌, List, [], ◌∷◌, ◌++◌, length, All}
use casting.Message.Values.{Value, Payload, upvals, slots_array, t_table, t_function, t_userdata}
use casting.Message.Pushes.{nil, boolean, number, lstring, described}
use casting.Message.Builder.{header_size, encode_all}
use casting.Message.Counting.{size_of}
use casting.LuaMessage as LuaMessage
use casting.LuaMessage.{
  Lua, Fields, Upvalues, Argument, Arguments, table, with_meta, function, string, unsaved, other,
  no_fields, field, no_upvalues, upvalue, value, saved, no_arguments, argument,
}

abbrev pub plain : ℕ → Payload → ℕ → List ℕ → Value
plain t p len s = record { type = t; payload = p; len = len; ptr = s }

abbrev pub slots : Fields → ℕ
slots no_fields = 0
slots (field k v fs) = suc (slots fs)

abbrev pub nups : Upvalues → ℕ
nups no_upvalues = 0
nups (upvalue v us) = suc (nups us)

abbrev pub number_of : Arguments → ℕ
number_of no_arguments = 0
number_of (argument x xs) = suc (number_of xs)

-- The values in the order of the message.
unfoldable mutual
  pub flat : Lua → List Value
  flat LuaMessage.nil = described nil ∷ []
  flat (LuaMessage.boolean b) = described (boolean b) ∷ []
  flat (LuaMessage.number n) = described (number n) ∷ []
  flat (string s) = described (lstring s (length s)) ∷ []
  flat (table p fs array) = plain t_table (slots_array (slots fs) array) 0 [] ∷ flat_fields fs
  flat (with_meta p fs array m) = []
  flat (function code us) =
      plain t_function (upvals (nups us)) (length code) code ∷ flat_upvalues us
  flat unsaved = []
  flat other = []

  pub flat_fields : Fields → List Value
  flat_fields no_fields = []
  flat_fields (field k v fs) = flat k ++ (flat v ++ flat_fields fs)

  pub flat_upvalues : Upvalues → List Value
  flat_upvalues no_upvalues = []
  flat_upvalues (upvalue v us) = flat v ++ flat_upvalues us

unfoldable mutual
  pub flat_argument : Argument → List Value
  flat_argument (value v) = flat v
  flat_argument (saved name xs) =
      plain t_userdata (upvals (number_of xs)) (length name) name ∷ flat_arguments xs

  pub flat_arguments : Arguments → List Value
  flat_arguments no_arguments = []
  flat_arguments (argument x xs) = flat_argument x ++ flat_arguments xs

-- The size of the message, with its header.
abbrev pub message_size : List Value → ℕ
message_size vs = header_size + size_of (encode_all vs)

-- The pointers that have come before, after a value.
unfoldable mutual
  pub after : Lua → List ℕ → List ℕ
  after (table p fs array) ks = after_fields fs (p ∷ ks)
  after (function code us) ks = after_upvalues us ks
  after v ks = ks

  pub after_fields : Fields → List ℕ → List ℕ
  after_fields no_fields ks = ks
  after_fields (field k v fs) ks = after_fields fs (after v (after k ks))

  pub after_upvalues : Upvalues → List ℕ → List ℕ
  after_upvalues no_upvalues ks = ks
  after_upvalues (upvalue v us) ks = after_upvalues us (after v ks)

unfoldable mutual
  pub after_argument : Argument → List ℕ → List ℕ
  after_argument (value v) ks = after v ks
  after_argument (saved name xs) ks = after_arguments xs ks

  pub after_arguments : Arguments → List ℕ → List ℕ
  after_arguments no_arguments ks = ks
  after_arguments (argument x xs) ks = after_arguments xs (after_argument x ks)

abbrev pub Fresh : ℕ → List ℕ → Type 0
Fresh p ks = All (λ k. k ≢ p) ks

-- `lua_next` gives no key that is nil.
abbrev pub IsKey : Lua → Type 0
IsKey LuaMessage.nil = ⊥
IsKey v = Unit

-- No table comes twice, none has a metatable, each value is of a type that can be written, and the
-- lengths and numbers fit.
unfoldable mutual
  pub IsTree : Lua → List ℕ → Type 0
  IsTree LuaMessage.nil ks = Unit
  IsTree (LuaMessage.boolean b) ks = Unit
  IsTree (LuaMessage.number n) ks = n < 256 ^ 8
  IsTree (string s) ks = length s < 2 ^ 31
  IsTree (table p fs array) ks =
      Fresh p ks × (slots fs < 2 ^ 31) × (array < 2 ^ 31) × AreTrees fs (p ∷ ks)
  IsTree (with_meta p fs array m) ks = ⊥
  IsTree (function code us) ks =
      (length code < 2 ^ 31) × (nups us < 2 ^ 31) × UpvaluesAreTrees us ks
  IsTree unsaved ks = ⊥
  IsTree other ks = ⊥

  pub AreTrees : Fields → List ℕ → Type 0
  AreTrees no_fields ks = Unit
  AreTrees (field k v fs) ks =
      IsTree k ks × IsTree v (after k ks) × AreTrees fs (after v (after k ks)) × IsKey k

  pub UpvaluesAreTrees : Upvalues → List ℕ → Type 0
  UpvaluesAreTrees no_upvalues ks = Unit
  UpvaluesAreTrees (upvalue v us) ks = IsTree v ks × UpvaluesAreTrees us (after v ks)

unfoldable mutual
  pub ArgumentIsTree : Argument → List ℕ → Type 0
  ArgumentIsTree (value v) ks = IsTree v ks
  ArgumentIsTree (saved name xs) ks =
      (length name < 2 ^ 31) × (number_of xs < 2 ^ 31) × ArgumentsAreTrees xs ks

  pub ArgumentsAreTrees : Arguments → List ℕ → Type 0
  ArgumentsAreTrees no_arguments ks = Unit
  ArgumentsAreTrees (argument x xs) ks =
      ArgumentIsTree x ks × ArgumentsAreTrees xs (after_argument x ks)
