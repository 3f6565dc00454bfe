-- ===== src/Text.antt =====
-- dttools/src/stringtools.c and dttools/src/url_encode.c, the string routines that the other parts
-- share. A string is its bytes up to the NUL; what a routine writes into a buffer is its result, and a
-- buffer whose length the code is not given is taken to be large enough.
pub mod Ends
pub mod Path
pub mod Match
pub mod Url
