-- ===== src/TestSender/Samples.antt =====
-- Random numbers for a frame of UDP.
use ocellus_network_monitor.TestSender.{Draws}

abbrev pub udp_draws : Draws
udp_draws = record {
  proto_index = 2;
  payload_len = 3;
  macs = λ i. i;
  ttl = 64;
  src0 = 10;
  src1 = 0;
  src2 = 0;
  src3 = 1;
  dst0 = 10;
  dst1 = 0;
  dst2 = 0;
  dst3 = 2;
  src_port = 5000;
  dst_port = 53;
  payload = λ i. i;
}
