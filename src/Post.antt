-- ===== src/Post.antt =====
-- network/post.h, network/post.cc, machine/network.h and machine/network.cc: mail between machines.
--
-- A Network is the device of one machine, a PostOffice the mail boxes behind it. What SendToSocket hands to
-- the host is a packet of bytes, `none` where the network loses it; that draw of Random is an argument,
-- and so is the memory of each buffer that `new` returns. Send holds its lock and waits for the interrupt
-- of the device, so that calls of it follow each other; Receive waits in an empty box, which is `none`.
pub mod Wire
pub mod Delivery
use nach_osx.Prelude.{
  ltb, leb, ◌==◌, if◌then◌else◌, length, get_or, set, replicate, take, drop, overlay, Outcome, ok,
  ◌>>=◌, ◌>>◌, check, bounds, ℕ, ◌+◌, ◌-◌, Bool, true, false, not, ◌&&◌, Option, none, some, List,
  [], ◌++◌,
}
use nach_osx.Words.{to_bytes, from_bytes}
use nach_osx.SortedList.{ListElement, append, remove}

-- PacketHeader and MailHeader: three ints each.
pub record Header : Type 0 where
  pub to : ℕ
  pub from : ℕ
  pub length_of : ℕ

abbrev pub header_size : ℕ
header_size = 12

abbrev pub max_wire_size : ℕ
max_wire_size = 64

abbrev pub max_packet_size : ℕ
max_packet_size = max_wire_size - header_size

abbrev pub max_mail_size : ℕ
max_mail_size = max_packet_size - header_size

-- *(PacketHeader *)buffer = hdr, and the read of it.
pub header_bytes : Header → List ℕ
header_bytes h = to_bytes 4 h.to ++ (to_bytes 4 h.from ++ to_bytes 4 h.length_of)

pub read_header : List ℕ → Header
read_header buffer =
    let bytes = take header_size buffer in
    record {
      to = from_bytes (take 4 bytes);
      from = from_bytes (take 4 (drop 4 bytes));
      length_of = from_bytes (take 4 (drop 8 bytes));
    }

pub record Network : Type 0 where
  pub ident : ℕ
  pub send_busy : Bool
  pub in_hdr : Header
  pub inbox : List ℕ

abbrev pub no_header : Header
no_header = record { to = 0; from = 0; length_of = 0 }

pub new_network : ℕ → List ℕ → Network
new_network addr memory = record {
  ident = addr;
  send_busy = false;
  in_hdr = no_header;
  inbox = memory;
}

-- Network::Send. The buffer is padded to the size of the wire with what its memory held.
pub send_packet : Header → List ℕ → Bool → List ℕ → Network → Outcome (Option (List ℕ))
send_packet hdr data_bytes lost memory n = do
  check (
      not n.send_busy
      && (ltb 0 hdr.length_of && (leb hdr.length_of max_packet_size && (hdr.from == n.ident))))
  ok (
      if lost
      then none
      else some (
          overlay (overlay memory 0 (header_bytes hdr)) header_size
            (take hdr.length_of data_bytes)))

pub send_done : Network → Network
send_done n = record n { send_busy = false }

-- A packet from the wire goes into the inbox, and the answer says whether readHandler is called.
pub take_packet : Option (List ℕ) → Network → Outcome (Bool × Network)
take_packet none n = ok (false, n)
take_packet (some buffer) n = do
  let hdr = read_header buffer
  check ((hdr.to == n.ident) && leb hdr.length_of max_packet_size)
  ok (
    true,
    record n {
      in_hdr = hdr;
      inbox = overlay n.inbox 0 (take hdr.length_of (drop header_size buffer));
    },
  )

pub check_pkt_avail : Option (List ℕ) → Network → Outcome (Bool × Network)
check_pkt_avail packet n =
    if not (n.in_hdr.length_of == 0) then ok (false, n) else take_packet packet n

-- Network::Receive into the buffer `into`.
pub receive_packet : List ℕ → Network → Header × (List ℕ × Network)
receive_packet into n =
    let hdr = n.in_hdr in
    (
      hdr,
      (
        if hdr.length_of == 0 then into else overlay into 0 (take hdr.length_of n.inbox),
        record n { in_hdr = record hdr { length_of = 0 } },
      ),
    )

pub record Mail : Type 0 where
  pub pkt_hdr : Header
  pub mail_hdr : Header
  pub bytes : List ℕ

pub new_mail : Header → Header → List ℕ → Outcome Mail
new_mail pkt_hdr mail_hdr msg_data = do
  check (leb mail_hdr.length_of max_mail_size)
  ok (record { pkt_hdr = pkt_hdr; mail_hdr = mail_hdr; bytes = take mail_hdr.length_of msg_data })

pub record PostOffice : Type 0 where
  pub net_addr : ℕ
  pub num_boxes : ℕ
  pub boxes : List (List (ListElement Mail))

pub new_post_office : ℕ → ℕ → PostOffice
new_post_office addr n_boxes = record {
  net_addr = addr;
  num_boxes = n_boxes;
  boxes = replicate n_boxes [];
}

-- MailBox::Put
pub put_mail :
    Header → Header → List ℕ → List (ListElement Mail) → Outcome (List (ListElement Mail))
put_mail pkt_hdr mail_hdr msg_data messages = do
  mail ← new_mail pkt_hdr mail_hdr msg_data
  ok (append messages mail)

-- PostOffice::Send, up to the wire.
pub send_mail :
    Header → Header → List ℕ → Bool → List ℕ → PostOffice → Network → Outcome (Option (List ℕ))
send_mail pkt_hdr mail_hdr msg_data lost memory office n = do
  check (leb mail_hdr.length_of max_mail_size)
  check (ltb mail_hdr.to office.num_boxes)
  let hdr : Header = record pkt_hdr {
    from = office.net_addr;
    length_of = mail_hdr.length_of + header_size;
  }
  send_packet hdr (header_bytes mail_hdr ++ take mail_hdr.length_of msg_data) lost memory n

-- One round of the loop of PostalDelivery, behind its P.
pub deliver : List ℕ → PostOffice → Network → Outcome (PostOffice × Network)
deliver buffer office n =
    let (pkt_hdr, (bytes, n')) = receive_packet buffer n in
    let mail_hdr = read_header bytes in
    do
      check (ltb mail_hdr.to office.num_boxes)
      check (leb mail_hdr.length_of max_mail_size)
      bounds (ltb mail_hdr.to (length office.boxes))
      box ← put_mail pkt_hdr mail_hdr (drop header_size bytes) (get_or office.boxes mail_hdr.to [])
      ok (record office { boxes = set office.boxes mail_hdr.to box }, n')

-- The last assertion of Receive.
abbrev is_legal : Option Mail → Bool
is_legal none = true
is_legal (some mail) = leb mail.mail_hdr.length_of max_mail_size

-- PostOffice::Receive, with MailBox::Get.
pub receive_mail : ℕ → PostOffice → Outcome (Option Mail × PostOffice)
receive_mail box office =
    let (mail, rest) = remove (get_or office.boxes box []) in
    do
      check (ltb box office.num_boxes)
      bounds (ltb box (length office.boxes))
      check (is_legal mail)
      ok (mail, record office { boxes = set office.boxes box rest })
