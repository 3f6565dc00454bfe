-- ===== src/Acl/Flags.antt =====
-- The rights of chirp/src/chirp_acl.c and their text. The bits of the code's `int` are Booleans, one
-- for each `CHIRP_ACL_…` of chirp/src/chirp_acl.h.
pub mod RoundTrip
mod Tests
use murphy.Base.{
  ℕ, Bool, true, false, ◌||◌, Option, none, some, List, [], ◌∷◌, ◌++◌, Bytes, ◌==◌, if◌then◌else◌,
}

-- The rights in a directory, and those that `v(…)` grants in a new one; `put` is `p` and `reserve` is
-- `v`.
pub record Rights : Type 0 where
  pub read : Bool
  pub write : Bool
  pub list : Bool
  pub delete : Bool
  pub put : Bool
  pub admin : Bool
  pub execute : Bool
  pub reserve : Bool

pub record Flags : Type 0 where
  pub own : Rights
  pub reserved : Rights

abbrev pub no_rights : Rights
no_rights = record {
  read = false;
  write = false;
  list = false;
  delete = false;
  put = false;
  admin = false;
  execute = false;
  reserve = false;
}

-- `if(flags & …) strcat(text, "…");`
abbrev pub letter : Bool → ℕ → Bytes
letter b c = if b then c ∷ [] else []

-- The part of `chirp_acl_flags_to_text` behind the opening parenthesis.
unfoldable pub reserved_to_text : Rights → Bytes
reserved_to_text r =
    letter r.read b'r'
    ++ (letter r.write b'w'
        ++ (letter r.list b'l'
            ++ (letter r.delete b'd'
                ++ (letter r.put b'p'
                    ++ (letter r.reserve b'v'
                        ++ (letter r.admin b'a' ++ (letter r.execute b'x' ++ (b')' ∷ []))))))))

abbrev pub or_n : Bytes → Bytes
or_n [] = b'n' ∷ []
or_n (c ∷ s) = c ∷ s

-- `chirp_acl_flags_to_text`
unfoldable pub flags_to_text : Flags → Bytes
flags_to_text f = or_n (
    letter f.own.read b'r'
    ++ (letter f.own.write b'w'
        ++ (letter f.own.list b'l'
            ++ (letter f.own.delete b'd'
                ++ (letter f.own.put b'p'
                    ++ (letter f.own.admin b'a'
                        ++ (letter f.own.execute b'x'
                            ++ (if f.own.reserve
                                then b'v' ∷ b'(' ∷ reserved_to_text f.reserved
                                else []))))))))

-- The tests of a letter in `chirp_acl_text_to_flags`: `if(*t == …) flags |= …;`
abbrev pub mark : ℕ → Rights → Rights
mark c r = record {
  read = if c == b'r' then true else r.read;
  write = if c == b'w' then true else r.write;
  list = if c == b'l' then true else r.list;
  delete = if c == b'd' then true else r.delete;
  put = if c == b'p' then true else r.put;
  admin = if c == b'a' then true else r.admin;
  execute = if c == b'x' then true else r.execute;
  reserve = if c == b'v' then true else r.reserve;
}

-- Where `chirp_acl_text_to_flags` is: in its loop, or between parentheses.
pub data Mode : Type 0 where
  outside : Mode
  inside : Mode

-- `chirp_acl_text_to_flags`; `none` where a parenthesis is not closed and the code steps over the NUL.
unfoldable pub text_to_flags : Mode → Flags → Bytes → Option Flags
text_to_flags outside f [] = some f
text_to_flags inside f [] = none
text_to_flags inside f (c ∷ t) =
    let out = text_to_flags outside f t in
    let on = text_to_flags inside (record f { reserved = mark c f.reserved }) t in
    if c == b')' then out else on
text_to_flags outside f (c ∷ []) = some (record f { own = mark c f.own })
text_to_flags outside f (c ∷ p ∷ t) =
    let marked = record f { own = mark c f.own } in
    let opened = text_to_flags inside marked t in
    let on = text_to_flags outside marked (p ∷ t) in
    if c == b'v' then if p == b'(' then opened else on else on
