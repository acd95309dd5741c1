-- ===== src/Examples/Mails.antt =====
-- Mail from machine 1 to box 2 of machine 0.
use nach_osx.Prelude.{get_or, replicate, ok, ℕ, ◌≡◌, refl, true, false, some, List, [], ◌∷◌, arith}
use nach_osx.SortedList.{append}
use nach_osx.Post.{Header, Network, check_pkt_avail, PostOffice, send_mail, deliver}
use nach_osx.Post.Delivery.{arrived, deliver-send_mail}

abbrev wire_hdr : Header
wire_hdr = record { to = 0; from = 0; length_of = 0 }

abbrev letter : Header
letter = record { to = 2; from = 1; length_of = 3 }

abbrev text : List ℕ
text = 104 ∷ 105 ∷ 0 ∷ []

abbrev office : ℕ → PostOffice
office addr = record { net_addr = addr; num_boxes = 10; boxes = replicate 10 [] }

abbrev device : ℕ → Network
device addr = record {
  ident = addr;
  send_busy = false;
  in_hdr = record { to = 0; from = 0; length_of = 0 };
  inbox = replicate 52 0;
}

deliver-send_mail_example :
    (wire : List ℕ) × (m' : Network) × (r' : PostOffice) × (m'' : Network) × (send_mail wire_hdr
        letter text false
        (replicate 64 7)
        (office 1)
        (device 1)
      ≡ ok (some wire))
    × (check_pkt_avail (some wire) (device 0) ≡ ok (true, m'))
    × (deliver (replicate 52 7) (office 0) m' ≡ ok (r', m''))
    × (get_or r'.boxes 2 [] ≡ append [] (arrived wire_hdr letter text 1))
deliver-send_mail_example =
    deliver-send_mail wire_hdr letter text (replicate 64 7) (replicate 52 7) (office 1) (office 0)
      (device 1) (device 0)
      (record { to = omega arith; from = omega arith; length_of = omega arith }) (omega arith)
      (omega arith) (omega arith) (omega arith) (omega arith) refl refl refl refl refl refl refl
      (omega arith) refl
