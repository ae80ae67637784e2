-- ===== src/Dsse/Tests.antt =====
-- internal/dsse/dsse.go: an encoding.
use behalf.Prelude.{◌≡◌, refl, Bytes, codes}
use behalf.Dsse.Pae.{pae, framed, pae_inj}
use behalf.Encoding.Decimal.{print_uint, digits_of}

hello :
    pae (codes "http://example.com/HelloWorld") (codes "hello world")
    ≡ codes "DSSEv1 29 http://example.com/HelloWorld 11 hello world"
unfolding pae framed print_uint digits_of
hello = refl

abbrev short : Bytes
short = codes "t"

pae_inj_example : (short ≡ short) × (codes "m" ≡ codes "m")
pae_inj_example = pae_inj short (codes "m") short (codes "m") refl
