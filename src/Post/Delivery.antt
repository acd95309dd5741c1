-- ===== src/Post/Delivery.antt =====
-- Mail that is sent arrives.
use nach_osx.Prelude.{
  ltb, leb, ◌==◌, lt→ltb, length, get_or, set, take, drop, overlay, take-drop-overlay, length-take,
  length-append, get_or-set_self, ok, ℕ, ◌+◌, ◌^◌, ◌≤◌, ◌<◌, ◌≡◌, refl, sym, ap, ◌∙◌, true, false,
  some, List, [], ◌++◌, arith,
}
use nach_osx.SortedList.{append}
use nach_osx.Post.{
  Header, header_size, header_bytes, max_wire_size, max_packet_size, max_mail_size, read_header,
  Network, send_packet, take_packet, check_pkt_avail, receive_packet, Mail, new_mail, PostOffice,
  put_mail, send_mail, deliver,
}
use nach_osx.Post.Wire.{
  take-all, Fits, length-header_bytes, packet, read_header-packet, take-packet,
  read_header-together, take-together,
}

-- The mail as it arrives.
abbrev pub arrived : Header → Header → List ℕ → ℕ → Mail
arrived pkt_hdr mail_hdr msg_data sender = record {
  pkt_hdr = record { to = pkt_hdr.to; from = sender; length_of = mail_hdr.length_of + header_size };
  mail_hdr = mail_hdr;
  bytes = take mail_hdr.length_of msg_data;
}

-- The content of the packet, and its header.
abbrev content : Header → List ℕ → List ℕ
content mail_hdr msg_data = header_bytes mail_hdr ++ take mail_hdr.length_of msg_data

abbrev packet_header : Header → Header → ℕ → Header
packet_header pkt_hdr mail_hdr sender = record {
  to = pkt_hdr.to;
  from = sender;
  length_of = mail_hdr.length_of + header_size;
}

module _ (pkt_hdr mail_hdr : Header) (msg_data : List ℕ)
    (small : mail_hdr.length_of ≤ max_mail_size) (long : mail_hdr.length_of ≤ length msg_data) where
  length-content : length (content mail_hdr msg_data) ≡ mail_hdr.length_of + header_size
  length-content = omega (
    arith,
    length-append (header_bytes mail_hdr) (take mail_hdr.length_of msg_data),
    length-header_bytes mail_hdr,
    length-take mail_hdr.length_of msg_data,
  )

  sent :
      (memory : List ℕ) (sender : PostOffice) (n : Network)
      → mail_hdr.to < sender.num_boxes
      → n.send_busy ≡ false
      → n.ident ≡ sender.net_addr
      → send_mail pkt_hdr mail_hdr msg_data false memory sender n
        ≡ ok (
            some (
              packet memory
                (packet_header pkt_hdr mail_hdr sender.net_addr)
                (content mail_hdr msg_data)))
  unfolding send_mail send_packet
  sent memory sender n to_box idle ident =
      rw
        (
          small_lem,
          lt→ltb mail_hdr.to sender.num_boxes to_box,
          idle,
          some_length,
          packet_size,
          own,
          take-all (mail_hdr.length_of + header_size) (content mail_hdr msg_data)
              (omega (arith, length-content)),
        )
        refl
    where
      small_lem : leb mail_hdr.length_of max_mail_size ≡ true
      small_lem = ground (arith, small)

      some_length : ltb 0 (mail_hdr.length_of + header_size) ≡ true
      some_length = ground arith

      packet_size : leb (mail_hdr.length_of + header_size) max_packet_size ≡ true
      packet_size = ground (arith, small)

      own : (sender.net_addr == n.ident) ≡ true
      own = ground (arith, ident)

  -- The device of the receiver with the packet in its inbox.
  abbrev filled : ℕ → Network → Network
  filled sender m = record m {
    in_hdr = packet_header pkt_hdr mail_hdr sender;
    inbox = overlay m.inbox 0 (content mail_hdr msg_data);
  }

  taken :
      (memory : List ℕ) (sender : ℕ) (m : Network)
      → length memory ≡ max_wire_size
      → sender < 2 ^ 32
      → pkt_hdr.to < 2 ^ 32
      → pkt_hdr.to ≡ m.ident
      → m.in_hdr.length_of ≡ 0
      → check_pkt_avail
          (some (packet memory (packet_header pkt_hdr mail_hdr sender) (content mail_hdr msg_data)))
          m
        ≡ ok (true, filled sender m)
  unfolding check_pkt_avail take_packet
  taken memory sender m wire_size from_fits to_fits to_there empty =
      rw (empty, header, to_lem, packet_size, bytes) refl
    where
      hdr : Header
      hdr = packet_header pkt_hdr mail_hdr sender

      fits : Fits (packet_header pkt_hdr mail_hdr sender)
      fits = record { to = to_fits; from = from_fits; length_of = omega (arith, small) }

      room : header_size + length (content mail_hdr msg_data) ≤ length memory
      room = omega (arith, length-content, small, wire_size)

      header :
          read_header
            (packet memory (packet_header pkt_hdr mail_hdr sender) (content mail_hdr msg_data))
          ≡ packet_header pkt_hdr mail_hdr sender
      header =
          read_header-packet memory (packet_header pkt_hdr mail_hdr sender)
            (content mail_hdr msg_data) fits room

      to_lem : (pkt_hdr.to == m.ident) ≡ true
      to_lem = ground (arith, to_there)

      packet_size : leb (mail_hdr.length_of + header_size) max_packet_size ≡ true
      packet_size = ground (arith, small)

      bytes :
          take (mail_hdr.length_of + header_size) (
            drop header_size
              (packet memory (packet_header pkt_hdr mail_hdr sender) (content mail_hdr msg_data)))
          ≡ content mail_hdr msg_data
      bytes =
          ap
            (λ k. take k (
              drop header_size (
                packet memory (packet_header pkt_hdr mail_hdr sender) (content mail_hdr msg_data))))
            (sym length-content)
          ∙ take-packet memory (packet_header pkt_hdr mail_hdr sender) (content mail_hdr msg_data)
              fits room

  delivered :
      (buffer : List ℕ) (sender : ℕ) (m : Network) (receiver : PostOffice)
      → Fits mail_hdr
      → length m.inbox ≡ max_packet_size
      → length buffer ≡ max_packet_size
      → mail_hdr.to < receiver.num_boxes
      → length receiver.boxes ≡ receiver.num_boxes
      → (m'' : Network) × (deliver buffer receiver (filled sender m)
          ≡ ok (
            record receiver {
              boxes = set receiver.boxes mail_hdr.to (
                  append
                    (get_or receiver.boxes mail_hdr.to [])
                    (arrived pkt_hdr mail_hdr msg_data sender));
            },
            m'',
          ))
  unfolding deliver receive_packet put_mail new_mail
  delivered buffer sender m receiver fits inbox_size buffer_size in_box all_boxes = (
    record (filled sender m) {
      in_hdr = record (packet_header pkt_hdr mail_hdr sender) { length_of = 0 };
    },
    rw
        (
          some_length,
          received,
          header,
          lt→ltb mail_hdr.to receiver.num_boxes in_box,
          small_lem,
          lt→ltb mail_hdr.to (length receiver.boxes) (omega (arith, in_box, all_boxes)),
          bytes,
        )
        refl,
  )
    where
      C : List ℕ
      C = header_bytes mail_hdr ++ take mail_hdr.length_of msg_data

      len : length (take mail_hdr.length_of msg_data) ≡ mail_hdr.length_of
      len = omega (arith, length-take mail_hdr.length_of msg_data, long)

      some_length : ((mail_hdr.length_of + header_size) == 0) ≡ false
      some_length = ground arith

      small_lem : leb mail_hdr.length_of max_mail_size ≡ true
      small_lem = ground (arith, small)

      received :
          take (mail_hdr.length_of + header_size) (overlay m.inbox 0 (content mail_hdr msg_data))
          ≡ content mail_hdr msg_data
      received =
          take-drop-overlay m.inbox 0 (mail_hdr.length_of + header_size) (content mail_hdr msg_data)
            length-content (omega (arith, inbox_size, small))

      room : header_size + length (take mail_hdr.length_of msg_data) ≤ length buffer
      room = omega (arith, len, small, buffer_size)

      header : read_header (overlay buffer 0 (content mail_hdr msg_data)) ≡ mail_hdr
      header = read_header-together buffer mail_hdr (take mail_hdr.length_of msg_data) fits room

      bytes :
          take mail_hdr.length_of (drop header_size (overlay buffer 0 (content mail_hdr msg_data)))
          ≡ take mail_hdr.length_of msg_data
      bytes =
          ap (λ k. take k (drop header_size (overlay buffer 0 (content mail_hdr msg_data))))
            (sym len)
          ∙ take-together buffer mail_hdr (take mail_hdr.length_of msg_data) fits room

-- Mail of a legal size to a box that both post offices have, with data of its length, is sent, and, when
-- the network does not lose the packet and the receiver's device is empty, put behind the mail in
-- that box of the machine it is for: with its header, its data, and the sender's address.
pub deliver-send_mail :
    (pkt_hdr mail_hdr : Header) (msg_data memory buffer : List ℕ) (sender receiver : PostOffice)
    (n m : Network)
    → Fits mail_hdr
    → pkt_hdr.to < 2 ^ 32
    → sender.net_addr < 2 ^ 32
    → mail_hdr.length_of ≤ max_mail_size
    → mail_hdr.length_of ≤ length msg_data
    → mail_hdr.to < sender.num_boxes
    → n.send_busy ≡ false
    → n.ident ≡ sender.net_addr
    → length memory ≡ max_wire_size
    → pkt_hdr.to ≡ m.ident
    → m.in_hdr.length_of ≡ 0
    → length m.inbox ≡ max_packet_size
    → length buffer ≡ max_packet_size
    → mail_hdr.to < receiver.num_boxes
    → length receiver.boxes ≡ receiver.num_boxes
    → (wire : List ℕ) × (m' : Network) × (r' : PostOffice) × (m'' : Network) × (send_mail pkt_hdr
          mail_hdr msg_data false memory sender n
        ≡ ok (some wire))
      × (check_pkt_avail (some wire) m ≡ ok (true, m'))
      × (deliver buffer receiver m' ≡ ok (r', m''))
      × (get_or r'.boxes mail_hdr.to []
          ≡ append
              (get_or receiver.boxes mail_hdr.to [])
              (arrived pkt_hdr mail_hdr msg_data sender.net_addr))
deliver-send_mail pkt_hdr mail_hdr msg_data memory buffer sender receiver n m fits to_fits from_fits
      small long to_box idle ident wire_size to_there empty inbox_size buffer_size in_box
      all_boxes =
    let (m'', ends) =
      delivered pkt_hdr mail_hdr msg_data small long buffer sender.net_addr m receiver fits
        inbox_size buffer_size in_box all_boxes in
    (
      packet memory (packet_header pkt_hdr mail_hdr sender.net_addr) (content mail_hdr msg_data),
      filled pkt_hdr mail_hdr msg_data small long sender.net_addr m,
      record receiver {
        boxes = set receiver.boxes mail_hdr.to (
            append (get_or receiver.boxes mail_hdr.to [])
              (arrived pkt_hdr mail_hdr msg_data sender.net_addr));
      },
      m'',
      sent pkt_hdr mail_hdr msg_data small long memory sender n to_box idle ident,
      taken pkt_hdr mail_hdr msg_data small long memory sender.net_addr m wire_size from_fits
          to_fits to_there empty,
      ends,
      get_or-set_self receiver.boxes mail_hdr.to
          (append (get_or receiver.boxes mail_hdr.to [])
            (arrived pkt_hdr mail_hdr msg_data sender.net_addr))
          [] (omega (arith, in_box, all_boxes)),
    )
